-- ===== src/Mount/Portal/Versions.antt =====
-- The NFS versions that a mount is tried with.
use csi_plugin.Base.{String, List}
use csi_plugin.Driver.{
  World, Driver, Event, mount_nfs, lock_mount_slot, unlock_mount_slot, get_data_portals,
  get_portal_floating_ip, list_exports,
}
use csi_plugin.Driver.Since.{Since, SinceThen, one_more, Since-Keeps}
use csi_plugin.Mount.Portal.{mount_share_sub_path_at_best_dataportal}
use csi_plugin.Mount.Portal.Keeps.{Offered, mount_share_sub_path-Keeps}

-- A request that a mount at `target` with these flags makes.
pub data MountRequest (target : String) (flags : List String) : Event → Type 0 where
  locks : MountRequest target flags lock_mount_slot
  unlocks : MountRequest target flags unlock_mount_slot
  lists_portals : MountRequest target flags get_data_portals
  asks_floating : MountRequest target flags get_portal_floating_ip
  lists_exports : (address : String) → MountRequest target flags (list_exports address)
  mounts :
      (export : String) (options : List String)
      → Offered flags options
      → MountRequest target flags (mount_nfs export target options)

-- Whatever the Anvil and the host answer, mounting a directory of a share asks for nothing but the
-- mount slot, the data portals, a floating address and exports, and mounts nothing but at the target,
-- with the given flags if one begins with "nfsvers=" or "vers=", or with those flags that begin with
-- neither and nfsvers=4.2, or nfsvers=3 and nolock. In which order these are tried is not stated, nor
-- is anything of an option behind a comma in a flag.
pub mount_share_sub_path-MountRequest :
    (w : World) (export_path sub_path target : String) (flags : List String) (fqdn : String)
    (d : Driver)
    → Since
        (MountRequest target flags)
        d.history
        (mount_share_sub_path_at_best_dataportal w export_path sub_path target flags fqdn
          d).1.history
mount_share_sub_path-MountRequest w export_path sub_path target flags fqdn d =
    Since-Keeps _
      (λ before.
        mount_share_sub_path-Keeps w (SinceThen (MountRequest target flags) before)
          (λ d h. one_more _ _ locks h) (λ d h. one_more _ _ unlocks h)
          (λ d h. one_more _ _ lists_portals h) (λ d h. one_more _ _ asks_floating h)
          (λ a d h. one_more _ _ (lists_exports a) h) (λ c d h. h) export_path sub_path target flags
          fqdn λ export options d offered h. one_more _ _ (mounts export options offered) h)
      d
