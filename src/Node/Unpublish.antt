-- ===== src/Node/Unpublish.antt =====
-- NodeUnpublishVolume of pkg/driver/node.go, and unpublishFileBackedVolume of pkg/driver/node_helper.go.
use csi_plugin.Base.{String, ◌<>◌, ◌==◌}
use csi_plugin.Base.Text.{dir, format_int}
use csi_plugin.Driver.{
  World, Op, Probe, answered, not_exist, failed, Fault, io_error, stale_handle, other_fault, Kind,
  symlink, block_device, directory, other_kind, detach_loop, device_minor, lstat, remove_file,
  resolve_link, stat_file, umount_command, pure, raise, call, attempt, guard, on_result, map_error,
  host, last_fault, unmount_path, with_volume_lock, ◌>>=◌, ◌>>◌,
}
use csi_plugin.Grpc.{Error, ok, status, text, internal, invalid_argument}
use csi_plugin.Mount.{unmount_backing_share_if_unused}
use csi_plugin.Node.Publish.{force_detach}

abbrev as_internal : Error → Error
as_internal e = status internal (text e)

module _ (w : World) where
  -- The backing share is named by the directory of the volume ID.
  unfoldable pub unpublish_file_backed_volume : String → String → Op (Unit {0})
  unpublish_file_backed_volume volume_path target = do
    let name = dir volume_path
    with_volume_lock w name (do
      minor ← map_error (call (device_minor target) (λ h. w.device_minor h target)) as_internal
      map_error (host w (umount_command target)) as_internal
      map_error (host w (remove_file target)) as_internal
      map_error (host w (detach_loop ("/dev/loop" <> format_int minor))) as_internal
      map_error (unmount_backing_share_if_unused w name) as_internal
      pure tt)

  abbrev pub kind_of : String → Op Kind
  kind_of path d = (ok (w.kind d.history path), d)

  unfoldable pub unpublish_kind : String → String → Kind → Op (Unit {0})
  unpublish_kind volume_id target block_device = unpublish_file_backed_volume volume_id target
  unpublish_kind volume_id target directory = map_error (unmount_path w target) as_internal
  unpublish_kind volume_id target symlink =
      map_error (host w (remove_file target))
        λ e. status internal "failed to remove unexpected target path: %v"
  unpublish_kind volume_id target other_kind =
      map_error (host w (remove_file target))
        λ e. status internal "failed to remove unexpected target path: %v"

  unfoldable pub unpublish_resolved : String → String → Probe → Op (Unit {0})
  unpublish_resolved volume_id path (answered b) = do
    kind ← kind_of path
    unpublish_kind volume_id path kind
  unpublish_resolved volume_id path not_exist =
      raise (status internal "failed to stat resolved path: %v")
  unpublish_resolved volume_id path failed =
      raise (status internal "failed to stat resolved path: %v")

  -- A broken link is removed.
  unfoldable pub unpublish_link : String → String → Op (Unit {0})
  unpublish_link volume_id target = do
    resolved ← attempt (call (resolve_link target) (λ h. w.resolve_link h target))
    on_result resolved
        (λ path. do
          stated ← call (stat_file path) (λ h. ok (w.stat h path))
          unpublish_resolved volume_id path stated)
        λ e.
          map_error (host w (remove_file target))
            λ e'. status internal "failed to remove broken symlink: %v"

  unfoldable pub unpublish_found : String → String → Kind → Op (Unit {0})
  unpublish_found volume_id target symlink = unpublish_link volume_id target
  unpublish_found volume_id target block_device = unpublish_kind volume_id target block_device
  unpublish_found volume_id target directory = unpublish_kind volume_id target directory
  unpublish_found volume_id target other_kind = unpublish_kind volume_id target other_kind

  unfoldable pub unpublish_after_fault : String → Fault → Op (Unit {0})
  unpublish_after_fault target io_error =
      map_error (force_detach w target)
        λ e. status internal "failed to clean up target path after I/O error: %v"
  unpublish_after_fault target stale_handle =
      map_error (force_detach w target)
        λ e. status internal "failed to clean up target path after I/O error: %v"
  unpublish_after_fault target other_fault = raise (status internal "error stating target path: %v")

  unfoldable pub unpublish_stated : String → String → Probe → Op (Unit {0})
  unpublish_stated volume_id target (answered b) = do
    kind ← kind_of target
    unpublish_found volume_id target kind
  unpublish_stated volume_id target not_exist = pure tt
  unpublish_stated volume_id target failed = do
    fault ← last_fault w target
    unpublish_after_fault target fault

  unfoldable pub node_unpublish_volume : String → String → Op (Unit {0})
  node_unpublish_volume volume_id target = do
    guard (volume_id == "") (status invalid_argument "volume ID cannot be empty")
    guard (target == "") (status invalid_argument "target path cannot be empty")
    with_volume_lock w volume_id (do
      stated ← call (lstat target) (λ h. ok (w.lstat h target))
      unpublish_stated volume_id target stated)
