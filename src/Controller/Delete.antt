-- ===== src/Controller/Delete.antt =====
-- DeleteVolume of pkg/driver/controller.go, with what it calls there, and DeleteFile of
-- pkg/common/host_utils.go.
pub mod Refs
pub mod Safety
use csi_plugin.Base.{
  String, ◌<>◌, ◌==◌, Bool, true, false, Option, none, some, List, [], ◌∷◌, if◌then◌else◌, is_some,
}
use csi_plugin.Base.Dict.{lookup}
use csi_plugin.Base.Int.{ℤ, negsuc}
use csi_plugin.Base.Text.{base, dir, parse_int}
use csi_plugin.Driver.{
  World, Op, CacheData, number, names, Probe, answered, not_exist, failed, pure, raise, call,
  attempt, guard, on_result, on_option, finally, cached, with_volume_lock, ◌>>=◌, ◌>>◌, stat_file,
  remove_all, get_file, get_file_snapshots, get_share, get_share_snapshots, delete_share,
}
use csi_plugin.Grpc.{
  Error, Result, ok, err, status, plain, text, value_or, hs_error, internal, failed_precondition,
  invalid_argument,
}
use csi_plugin.Mount.{holding}
use csi_plugin.Types.{ShareResponse, File, FileSnapshot}
use csi_plugin.VolumeId.{get_volume_name_from_path, is_file_backed_volume_id, share_staging_dir}

abbrev pub has_snapshots : Error
has_snapshots =
    status failed_precondition "volumes with snapshots cannot be deleted, delete snapshots first"

is_member : String → List String → Bool
is_member x [] = false
is_member x (y ∷ l) = let rest = is_member x l in if x == y then true else rest

-- slices.Contains on the cache entry, which may be missing or of another type.
is_export : String → Option CacheData → Bool
unfolding is_member
is_export pathname (some (names exports)) = is_member pathname exports
is_export pathname (some (number n)) = false
is_export pathname none = false

-- csi_delete_delay; a text that is not an integer falls back to -1.
delay_or_default : Option ℤ → ℤ
delay_or_default (some n) = n
delay_or_default none = negsuc 0

delete_delay : Option String → ℤ
unfolding delay_or_default
delete_delay none = negsuc 0
delete_delay (some v) = delay_or_default (parse_int v)

module _ (w : World) where
  unfoldable pub remove_stated : String → Probe → Op (Unit {0})
  remove_stated pathname (answered b) =
      call (remove_all pathname) (λ h. w.host h (remove_all pathname))
  remove_stated pathname not_exist = pure tt
  remove_stated pathname failed = raise (plain "stat")

  -- common.DeleteFile
  unfoldable pub delete_file : String → Op (Unit {0})
  unfolding is_export
  delete_file pathname = do
    guard (pathname == "/")
        (status internal "Cannot remove path name '/' — recheck or try manually.")
    exports ← cached w "NFS_EXPORTS"
    guard (is_export pathname exports)
        (status internal "Cannot remove export path — recheck or try manually.")
    stated ← call (stat_file pathname) (λ h. ok (w.stat h pathname))
    remove_stated pathname stated

  -- With the backing share mounted, for nobody's mount flags.
  unfoldable pub with_backing_mount : {A : Type 0} → ShareResponse → Op A → Op A
  with_backing_mount {A} share m = holding w share [] "" (λ e. status internal (text e)) m

  unfoldable pub found_backing_share : Result (Option ShareResponse) → Op ShareResponse
  found_backing_share (ok (some share)) = pure share
  found_backing_share (ok none) = raise (status internal "unable to get backing share %s: %v")
  found_backing_share (err e) = raise (status internal "unable to get backing share %s: %v")

  unfoldable pub delete_existing_file : String → Op (Unit {0})
  delete_existing_file filepath = do
    let residing_share_name = base (dir filepath)
    with_volume_lock w residing_share_name (do
      looked_up ←
          attempt (call (get_share residing_share_name) (λ h. w.get_share h residing_share_name))
      backing_share ← found_backing_share looked_up
      with_backing_mount backing_share (do
        deleted ← attempt (
            delete_file
              (share_staging_dir <> dir filepath <> "/" <> get_volume_name_from_path filepath))
        on_result deleted pure λ e. raise (status internal (text e))))

  unfoldable pub delete_if_free : Bool → List FileSnapshot → String → Op (Unit {0})
  delete_if_free exists (snap ∷ snaps) filepath = raise has_snapshots
  delete_if_free true [] filepath = delete_existing_file filepath
  delete_if_free false [] filepath = pure tt

  -- The errors of the two queries are dropped, as in the source.
  unfoldable pub delete_file_backed_volume : String → Op (Unit {0})
  delete_file_backed_volume filepath = do
    file ← attempt (call (get_file filepath) (λ h. w.get_file h filepath))
    snaps ← attempt (call (get_file_snapshots filepath) (λ h. w.get_file_snapshots h filepath))
    delete_if_free (is_some (value_or none file)) (value_or [] snaps) filepath

  unfoldable pub delete_share_if_free : List String → ShareResponse → Op (Unit {0})
  unfolding delete_delay
  delete_share_if_free (snap ∷ snaps) share = raise has_snapshots
  delete_share_if_free [] share = do
    let delay = delete_delay (lookup "csi_delete_delay" share.extended_info)
    deleted ←
        attempt (call (delete_share share.name delay) (λ h. w.delete_share h share.name delay))
    on_result deleted pure λ e. raise (hs_error e)

  unfoldable pub delete_share_backed_volume : ShareResponse → Op (Unit {0})
  delete_share_backed_volume share = do
    listed ←
        attempt (call (get_share_snapshots share.name) (λ h. w.get_share_snapshots h share.name))
    on_result listed (λ snaps. delete_share_if_free snaps share)
        λ e. raise (status internal (text e))

  -- A share that is no longer there is a volume that is already deleted.
  unfoldable pub delete_found_share : Result (Option ShareResponse) → Op (Unit {0})
  delete_found_share (ok (some share)) = delete_share_backed_volume share
  delete_found_share (ok none) = pure tt
  delete_found_share (err e) = raise (status internal (text e))

  unfoldable pub delete_volume : String → Op (Unit {0})
  delete_volume volume_id = do
    guard (volume_id == "") (status invalid_argument "volume ID cannot be empty")
    with_volume_lock w volume_id (
        if is_file_backed_volume_id volume_id then delete_file_backed_volume volume_id else do
          let volume_name = get_volume_name_from_path volume_id
          looked_up ← attempt (call (get_share volume_name) (λ h. w.get_share h volume_name))
          delete_found_share looked_up)
