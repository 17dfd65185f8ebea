-- ===== src/Node/FileBacked.antt =====
-- Publishing a file-backed volume: publishFileBackedVolume and reconcilePublishedFilesystem of
-- pkg/driver/node_helper.go.
use csi_plugin.Base.{String, ◌<>◌, ◌==◌, Bool, false, not, ◌&&◌, List, [], ◌∷◌, if◌then◌else◌}
use csi_plugin.Base.Text.{dir}
use csi_plugin.Driver.{
  World, Op, Probe, answered, not_exist, failed, Fault, io_error, stale_handle, other_fault,
  attach_loop, bind_mount, check_growth, cleanup_loop, make_block_target, make_dir,
  mount_file_system, reconcile_file_system, pure, raise, call, attempt, on_result, on_failure,
  map_error, host, host_logged, probe_path, last_fault, unmount_path, with_volume_lock, ◌>>=◌, ◌>>◌,
}
use csi_plugin.Grpc.{Error, status, text, internal, failed_precondition}
use csi_plugin.Mount.{ensure_backing_share_mounted, unmount_backing_share_if_unused}
use csi_plugin.Node.Publish.{force_detach}
use csi_plugin.VolumeId.{share_staging_dir}

abbrev as_internal : Error → Error
as_internal e = status internal (text e)

abbrev pub not_grown : Error
not_grown =
    status failed_precondition
      "filesystem in %s has not been grown to its provisioned capacity; publish it writable once or retry CreateVolume reconciliation"

module _ (w : World) where
  -- The target: a directory, or a file to bind a block device on.
  unfoldable pub make_target : String → String → Op (Unit {0})
  make_target target fs_type =
      if not (fs_type == "") then map_error (host w (make_dir target)) as_internal else do
        map_error (host w (make_dir (dir target))) as_internal
        map_error (host w (make_block_target target)) as_internal

  unfoldable pub target_after_fault : String → String → Fault → Op Bool
  target_after_fault target fs_type io_error = do
    map_error (force_detach w target)
        λ e. status internal "failed to clean up publish target after I/O error: %v"
    make_target target fs_type
    pure false
  target_after_fault target fs_type stale_handle =
      raise (status internal "failed to inspect publish target %s: %v")
  target_after_fault target fs_type other_fault =
      raise (status internal "failed to inspect publish target %s: %v")

  -- Whether the target is mounted; if it is not, it is there afterwards.
  unfoldable pub ready_target : String → String → Probe → Op Bool
  ready_target target fs_type (answered b) = pure b
  ready_target target fs_type not_exist = do make_target target fs_type; pure false
  ready_target target fs_type failed = do
    fault ← last_fault w target
    target_after_fault target fs_type fault

  abbrev leave_share : String → Op (Unit {0})
  leave_share name = do attempt (unmount_backing_share_if_unused w name); pure tt

  -- AttachLoopDeviceWithRetry, which returns no device with an error.
  unfoldable pub publish_block : String → String → String → Bool → Op (Unit {0})
  publish_block name file target read_only = do
    attached ← attempt (call (attach_loop file read_only) (λ h. w.attach_loop h file read_only))
    on_result attached
        (λ device.
          on_failure (host w (bind_mount device target))
            (do host_logged w (cleanup_loop device); leave_share name))
        λ e. do
          host_logged w (cleanup_loop "")
          leave_share name
          raise (status internal "failed setting up loop device: device=%s, filePath=%s")

  -- A read-only publish never grows a file system.
  unfoldable pub check_grown : String → String → Op (Unit {0})
  check_grown file fs_type = do
    grow ←
        map_error (call (check_growth file fs_type) (λ h. w.needs_growth h file fs_type))
          λ e. status internal "verify filesystem before read-only publish: %v"
    if grow then raise not_grown else pure tt

  unfoldable pub publish_file_system : String → String → String → String → Bool → Op (Unit {0})
  publish_file_system name file target fs_type read_only =
      on_failure
        (do
          if read_only then check_grown file fs_type else pure tt
          host w (mount_file_system file target fs_type (if read_only then "ro" ∷ [] else [])))
        (leave_share name)

  unfoldable pub mount_volume :
      String → String → String → String → List String → Bool → String → Op (Unit {0})
  mount_volume name file target fs_type flags read_only fqdn = do
    ensure_backing_share_mounted w name flags fqdn false
    if fs_type == ""
        then publish_block name file target read_only
        else publish_file_system name file target fs_type read_only

  -- An error on a mount that was there already is only logged.
  unfoldable pub reconcile_published_filesystem : String → String → String → Bool → Op (Unit {0})
  reconcile_published_filesystem target file fs_type fresh = do
    reconciled ← attempt (host w (reconcile_file_system target file fs_type))
    on_result reconciled (λ _. pure tt)
        λ e. if not fresh then pure tt else do
          attempt (unmount_path w target)
          raise (status internal "failed to reconcile filesystem size: %v")

  unfoldable pub publish_file_backed_volume :
      String → String → String → String → List String → Bool → String → Op (Unit {0})
  publish_file_backed_volume name volume_path target fs_type flags read_only fqdn =
      with_volume_lock w name (do
        answer ← probe_path w target
        mounted ← ready_target target fs_type answer
        let file = share_staging_dir <> volume_path
        if mounted then pure tt else mount_volume name file target fs_type flags read_only fqdn
        if not (fs_type == "") && not read_only
            then on_failure (reconcile_published_filesystem target file fs_type (not mounted))
                (leave_share name)
            else pure tt)
