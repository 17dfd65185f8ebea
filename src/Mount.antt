-- ===== src/Mount.antt =====
-- Backing-share mounts: pkg/driver/utils.go, classifyMount to UnmountBackingShareIfUnused. The lock of a
-- backing directory (mountLockFor) makes each acquire and release one step here; how these steps of
-- several threads interleave is the subject of Mount/Threads.
pub mod Refs
pub mod Counters
pub mod Classify
pub mod Server
pub mod Keeps
pub mod Balance
pub mod Stale
pub mod Portal
pub mod Threads
use csi_plugin.Base.{
  ℕ, zero, suc, ◌+◌, ◌-◌, String, ◌<>◌, ◌==◌, Bool, true, false, not, Option, none, some, List, [],
  ◌∷◌, ltb, eqb, if◌then◌else◌,
}
use csi_plugin.Base.Dict.{Dict}
use csi_plugin.Driver.{
  World, Driver, Op, Event, get_share, unmount, force_unmount, probe_mount, list_loop_devices,
  Probe, answered, not_exist, failed, pure, raise, call, attempt, on_result, map_error, finally,
  ◌>>=◌, ◌>>◌,
}
use csi_plugin.Grpc.{Error, Result, ok, err, status, plain, text, not_found, failed_precondition}
use csi_plugin.Types.{ShareResponse}
use csi_plugin.VolumeId.{share_staging_dir}
use Refs.{refs_of, bump_backing_ref, drop_backing_ref}
use Classify.{MountState, healthy, absent, stale, classify_mount, is_share_mounted}
use Portal.{mount_share_at_best_dataportal}
use Server.{foreign_backing_mount_server, loop_devices_under}

-- bumpBackingRef and dropBackingRef on the driver's map.
unfoldable pub bump : String → Op Bool
bump dir d =
    let (first, refs) = bump_backing_ref dir d.mount_refs in
    (ok first, record d { mount_refs = refs })

unfoldable pub drop : String → Op Bool
drop dir d =
    let (last, refs) = drop_backing_ref dir d.mount_refs in
    (ok last, record d { mount_refs = refs })

unfoldable pub backing_mount_refs : String → Op ℕ
backing_mount_refs dir d = (ok (refs_of dir d.mount_refs), d)

abbrev foreign_in_use : Error
foreign_in_use =
    status failed_precondition
      "backing share %s is mounted at %s from %s, and loop devices still use it; unmount it once unused"

module _ (w : World) where
  -- `others` is backingMountRefs, less the caller's own reference.
  unfoldable pub in_use : String → Bool → Op Bool
  in_use dir ref_held = do
    refs ← backing_mount_refs dir
    let others = if ref_held then refs - 1 else refs
    if ltb 0 others then pure true else loop_devices_under w dir

  -- Replaces the mount of another Anvil, unless it is in use.
  unfoldable pub replace_foreign : String → Bool → String → Op Bool
  replace_foreign dir ref_held server = if server == "" then pure true else do
    used ← in_use dir ref_held
    if used then raise foreign_in_use else do call (unmount dir) (λ h. w.unmount h dir); pure false

  -- Whether the mount that is there can be reused; if not, it is out of the way.
  unfoldable pub clear_the_way : String → String → Bool → MountState → Op Bool
  clear_the_way dir fqdn ref_held healthy = do
    server ← foreign_backing_mount_server w dir fqdn
    replace_foreign dir ref_held server
  clear_the_way dir fqdn ref_held stale = do
    attempt (call (force_unmount dir) (λ h. w.unmount h dir))
    pure false
  clear_the_way dir fqdn ref_held absent = pure false

  unfoldable pub mount_backing_share : ShareResponse → List String → String → Bool → Op (Unit {0})
  mount_backing_share share flags fqdn ref_held = do
    let dir = share_staging_dir <> share.export_path
    state ← classify_mount w dir 2
    reuse ← clear_the_way dir fqdn ref_held state
    if reuse then pure tt else mount_share_at_best_dataportal w share.export_path dir flags fqdn

  unfoldable pub found_share : Option ShareResponse → List String → String → Bool → Op (Unit {0})
  found_share none flags fqdn ref_held = pure tt
  found_share (some share) flags fqdn ref_held = mount_backing_share share flags fqdn ref_held

  -- ensureBackingShareMounted; of the volume it reads the mount flags and the FQDN.
  unfoldable pub ensure_backing_share_mounted : String → List String → String → Bool → Op (Unit {0})
  ensure_backing_share_mounted name flags fqdn ref_held = do
    looked_up ← attempt (call (get_share name) (λ h. w.get_share h name))
    on_result looked_up (λ share. found_share share flags fqdn ref_held)
        λ e. raise (status not_found (text e))

  -- The reservation is taken back where the mount fails.
  unfoldable pub mount_first : String → String → List String → String → Op (Unit {0})
  mount_first dir name flags fqdn = do
    mounted ← attempt (ensure_backing_share_mounted name flags fqdn true)
    on_result mounted (λ _. pure tt) λ e. do drop dir; raise e

  unfoldable pub acquire_backing_mount : ShareResponse → List String → String → Op (Unit {0})
  acquire_backing_mount share flags fqdn = do
    let dir = share_staging_dir <> share.export_path
    first ← bump dir
    if first then mount_first dir share.name flags fqdn else pure tt

  unfoldable pub unmount_if_mounted : String → Op Bool
  unmount_if_mounted dir = do
    mounted ← call (probe_mount dir) (λ h. ok (is_share_mounted (w.probe_mount h dir)))
    if not mounted then pure true else do
      used ← loop_devices_under w dir
      if used then pure false else do call (unmount dir) (λ h. w.unmount h dir); pure true

  unfoldable pub unmount_found : Option ShareResponse → Op Bool
  unmount_found none = pure false
  unmount_found (some share) = do
    let dir = share_staging_dir <> share.export_path
    refs ← backing_mount_refs dir
    if ltb 0 refs then pure false else unmount_if_mounted dir

  unfoldable pub unmount_backing_share_if_unused : String → Op Bool
  unmount_backing_share_if_unused name = do
    share ← call (get_share name) (λ h. w.get_share h name)
    unmount_found share

  unfoldable pub release_backing_mount : ShareResponse → Op (Unit {0})
  release_backing_mount share = do
    let dir = share_staging_dir <> share.export_path
    last ← drop dir
    if last then (do attempt (unmount_backing_share_if_unused share.name); pure tt) else pure tt

  -- acquireBackingMount, whose error the caller changes, `m`, and the deferred releaseBackingMount.
  unfoldable pub holding :
      {A : Type 0} → ShareResponse → List String → String → (Error → Error) → Op A → Op A
  holding {A} share flags fqdn f m = do
    map_error (acquire_backing_mount share flags fqdn) f
    finally m (release_backing_mount share)
