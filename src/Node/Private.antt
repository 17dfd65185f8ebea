-- ===== src/Node/Private.antt =====
-- Mounts of the driver's own: growFilesystemPrivatelyIfNeeded and bindMountReadOnly of
-- pkg/driver/node_helper.go.
use csi_plugin.Base.{String, not, [], if◌then◌else◌}
use csi_plugin.Driver.{
  World, Op, check_growth, make_temp_dir, remove_file, mount_file_system, reconcile_file_system,
  bind_mount, remount_read_only, pure, raise, call, attempt, on_result, finally, on_failure,
  map_error, host, host_logged, unmount_path, ◌>>=◌, ◌>>◌,
}
use csi_plugin.Grpc.{plain}

module _ (w : World) where
  abbrev temp_dir : String → Op String
  temp_dir prefix = call (make_temp_dir prefix) (λ h. w.make_temp_dir h)

  abbrev unmount_logged : String → Op (Unit {0})
  unmount_logged path = do attempt (unmount_path w path); pure tt

  -- `mounted` is false again once the unmount succeeded.
  unfoldable pub grow_at : String → String → String → Op (Unit {0})
  grow_at backing_file fs_type temporary =
      finally
        (do
          map_error (host w (mount_file_system backing_file temporary fs_type []))
              λ e. plain "mount filesystem temporarily for growth: %w"
          on_failure
              (do
                map_error (host w (reconcile_file_system temporary backing_file fs_type))
                    λ e. plain "reconcile restored filesystem during provisioning: %w"
                map_error (unmount_path w temporary)
                    λ e. plain "unmount temporary filesystem after growth: %w")
              (unmount_logged temporary))
        (host_logged w (remove_file temporary))

  unfoldable pub grow_filesystem_privately_if_needed : String → String → Op (Unit {0})
  grow_filesystem_privately_if_needed backing_file fs_type = do
    grow ←
        map_error
          (call (check_growth backing_file fs_type) (λ h. w.needs_growth h backing_file fs_type))
          λ e. plain "check filesystem size: %w"
    if not grow then pure tt else do
      temporary ←
          map_error (temp_dir ".hscsi-grow-") λ e. plain "create temporary filesystem mount: %w"
      grow_at backing_file fs_type temporary

  -- The final bind is rolled back where the private one cannot be unmounted.
  unfoldable pub leave_private : String → String → Op (Unit {0})
  leave_private private target = do
    left ← attempt (unmount_path w private)
    on_result left pure λ e. do
      rolled_back ← attempt (unmount_path w target)
      on_result rolled_back (λ _. raise (plain "clean private bind mount: %w"))
          λ e'. raise (plain "clean private bind mount: %v (rollback target failed: %v)")

  unfoldable pub bind_through : String → String → String → Op (Unit {0})
  bind_through source target private =
      finally
        (do
          map_error (host w (bind_mount source private))
              λ e. plain "create private bind from %s: %w"
          on_failure
              (do
                map_error (host w (remount_read_only private))
                    λ e. plain "make private bind read-only: %w"
                host w (bind_mount private target)
                leave_private private target)
              (unmount_logged private))
        (host_logged w (remove_file private))

  unfoldable pub bind_mount_read_only : String → String → Op (Unit {0})
  bind_mount_read_only source target = do
    private ← map_error (temp_dir ".hscsi-bind-") λ e. plain "create private bind mount: %w"
    bind_through source target private
