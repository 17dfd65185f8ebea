-- ===== src/Mount/Portal.antt =====
-- The choice of a data portal and of an NFS version for a mount: MountShareAtBestDataportal and
-- mountShareSubPathAtBestDataportal of pkg/driver/utils.go.
pub mod Keeps
pub mod Versions
use text.Mathlib.Text.{starts_with}
use csi_plugin.Base.{
  ℕ, ◌*◌, String, ◌<>◌, ◌==◌, Bool, true, false, not, ◌&&◌, ◌||◌, Option, none, some, List, [], ◌∷◌,
  ◌++◌, if◌then◌else◌,
}
use csi_plugin.Driver.{
  World, Op, CacheData, number, names, DataPortal, mount_nfs, list_exports, get_data_portals,
  get_portal_floating_ip, pure, raise, call, attempt, on_result, on_option, cached, remember, host,
  with_mount_slot, ◌>>=◌, ◌>>◌,
}
use csi_plugin.Grpc.{Result, ok, err, status, plain, internal, value_or}
use csi_plugin.Node.{match_nfs_export}
use csi_plugin.Params.{resolve_fqdn}

-- strings.HasPrefix(flag, "nfsvers=") || strings.HasPrefix(flag, "vers=")
unfoldable pub names_version : String → Bool
names_version flag = starts_with flag "nfsvers=" || starts_with flag "vers="

unfoldable pub contains_nfsvers : List String → Bool
contains_nfsvers [] = false
contains_nfsvers (flag ∷ flags) = names_version flag || contains_nfsvers flags

unfoldable pub without_nfsvers : List String → List String
without_nfsvers [] = []
without_nfsvers (flag ∷ flags) =
    let rest = without_nfsvers flags in if names_version flag then rest else flag ∷ rest

-- A cached value of another type counts as none.
abbrev as_names : Option CacheData → Option (List String)
as_names (some (names l)) = some l
as_names (some (number n)) = none
as_names none = none

-- The one portal that stands for the resolved address where the Anvil lists none.
unfoldable pub or_resolved : String → String → List DataPortal → List DataPortal
or_resolved fqdn address (p ∷ portals) = p ∷ portals
or_resolved fqdn address [] =
    if address == "" then [] else (record { name = fqdn; address = address }) ∷ []

abbrev succeeded : Result (Unit {0}) → Bool
succeeded (ok _) = true
succeeded (err e) = false

module _ (w : World) where
  unfoldable pub fetch_exports : String → Op (List String × Bool)
  fetch_exports address = do
    exports ← call (list_exports address) (λ h. w.nfs_exports h address)
    remember w ("NFS_EXPORTS:" <> address) (names exports) 30
    remember w "NFS_EXPORTS" (names exports) (60 * 60)
    pure (exports, false)

  -- The exports, and whether they are from the cache.
  unfoldable pub cached_nfs_exports : String → Bool → Op (List String × Bool)
  cached_nfs_exports address fresh = if fresh then fetch_exports address else do
    found ← cached w ("NFS_EXPORTS:" <> address)
    on_option (as_names found) (fetch_exports address) λ exports. pure (exports, true)

  -- The source to mount, or "" where no export of the portal matches.
  unfoldable pub export_on : String → String → String → Op String
  export_on address export_path sub_path =
      if not (w.data_portal_mount_prefix == "")
      then pure (address <> ":" <> w.data_portal_mount_prefix <> export_path <> sub_path)
      else do
        looked_up ← attempt (cached_nfs_exports address false)
        on_result looked_up
            (λ found.
              let export = match_nfs_export found.0 address export_path sub_path in
              if (export == "") && found.1
              then (do
                again ← attempt (cached_nfs_exports address true)
                pure (match_nfs_export (value_or ([], false) again).0 address export_path sub_path))
              else pure export)
            λ e. pure ""

  -- MountToDataPortal
  unfoldable pub mount_to_data_portal :
      String → String → String → String → List String → DataPortal → Op Bool
  mount_to_data_portal floating export_path sub_path target options portal = do
    stopped ← λ d. (ok (w.cancelled d.history), d)
    if stopped then pure false else do
      export ← export_on (if floating == "" then portal.address else floating) export_path sub_path
      if export == "" then pure false else do
        mounted ← attempt (host w (mount_nfs export target options))
        pure (succeeded mounted)

  -- The portals in turn, up to the first one that has the share mounted.
  unfoldable pub try_portals : (DataPortal → Op Bool) → List DataPortal → Op Bool
  try_portals mount [] = pure false
  try_portals mount (p ∷ portals) = do
    mounted ← mount p
    if mounted then pure true else try_portals mount portals

  -- NFS 4.2, and then NFS 3 without locks.
  unfoldable pub mount_by_default :
      (List String → DataPortal → Op Bool) → List DataPortal → List String → Op (Unit {0})
  mount_by_default mount portals flags = do
    by_4 ← try_portals (mount (flags ++ "nfsvers=4.2" ∷ [])) portals
    if by_4 then pure tt else do
      by_3 ← try_portals (mount (flags ++ "nfsvers=3" ∷ "nolock" ∷ [])) portals
      if by_3 then pure tt else raise (plain "could not mount to any data-portals")

  unfoldable pub mount_by_flags :
      (List String → DataPortal → Op Bool) → List DataPortal → List String → Op (Unit {0})
  mount_by_flags mount portals flags =
      if contains_nfsvers flags
      then (do
        as_told ← try_portals (mount flags) portals
        if as_told then pure tt else mount_by_default mount portals (without_nfsvers flags))
      else mount_by_default mount portals flags

  -- The address that the FQDN resolves to, or else a floating one; "" where there is none.
  unfoldable pub choose_address : String → Op String
  choose_address fqdn =
      on_option (resolve_fqdn w.lookup_ip fqdn)
        (do
          floating ← attempt (call get_portal_floating_ip (λ h. w.get_portal_floating_ip h))
          pure (value_or "" floating))
        λ ip. if not (ip == "") then pure ip else do
          floating ← attempt (call get_portal_floating_ip (λ h. w.get_portal_floating_ip h))
          pure (value_or "" floating)

  unfoldable pub mount_share_sub_path_at_best_dataportal :
      String → String → String → List String → String → Op (Unit {0})
  mount_share_sub_path_at_best_dataportal export_path sub_path target flags fqdn =
      with_mount_slot w (do
        listed ← attempt (call get_data_portals (λ h. w.get_data_portals h))
        on_result listed
            (λ portals. do
              floating ← choose_address fqdn
              mount_by_flags (mount_to_data_portal floating export_path sub_path target)
                  (or_resolved fqdn floating portals) flags)
            λ e. raise (status internal "could not create list of data-portals, %v"))

  unfoldable pub mount_share_at_best_dataportal :
      String → String → List String → String → Op (Unit {0})
  mount_share_at_best_dataportal export_path target flags fqdn =
      mount_share_sub_path_at_best_dataportal export_path "" target flags fqdn
