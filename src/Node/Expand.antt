-- ===== src/Node/Expand.antt =====
-- NodeExpandVolume and nodeExpansionFilesystemType of pkg/driver/node.go.
use csi_plugin.Base.{String, ◌<>◌, ◌==◌, false, not, Option, none, some, if◌then◌else◌}
use csi_plugin.Base.Int.{ℤ}
use csi_plugin.Driver.{
  returned_share, World, Op, does_file_exist, expand_device, expand_mounted_file_system,
  get_file_system_type, get_share, probe_mount, pure, call, attempt, guard, map_error, host, ◌>>=◌,
  ◌>>◌,
}
use csi_plugin.Grpc.{Error, ok, status, value_or, internal, invalid_argument, failed_precondition}
use csi_plugin.Mount.Classify.{is_share_mounted}
use csi_plugin.Types.{ShareResponse, CapacityRange, AccessType, block, mount, unset}
use csi_plugin.VolumeId.{get_volume_name_from_path, share_staging_dir}
use csi_plugin.Controller.Expand.{requested_size}

abbrev empty_path : Error
empty_path = status invalid_argument "volume Path cannot be empty"

module _ (w : World) where
  unfoldable pub type_on_device : String → String → Op String
  type_on_device volume_path backing_file = do
    guard (volume_path == "") empty_path
    map_error (call (get_file_system_type backing_file) (λ h. w.file_system_type h backing_file))
        λ e. status internal "could not determine filesystem type at %q: %v"

  -- "" is a raw block volume. A capability that is missing is one without a type.
  unfoldable pub node_expansion_filesystem_type : AccessType → String → String → Op String
  node_expansion_filesystem_type block volume_path backing_file = pure ""
  node_expansion_filesystem_type unset volume_path backing_file =
      type_on_device volume_path backing_file
  node_expansion_filesystem_type (mount fs_type flags) volume_path backing_file = do
    guard (volume_path == "") empty_path
    if not (fs_type == "") then pure fs_type else type_on_device volume_path backing_file

  unfoldable pub expand_on_node : String → String → AccessType → ℤ → Op (Option ℤ)
  expand_on_node volume_id volume_path access requested = do
    let backing_file = share_staging_dir <> volume_id
    host w (expand_device backing_file requested)
    fs_type ← node_expansion_filesystem_type access volume_path backing_file
    if not (fs_type == "")
        then host w (expand_mounted_file_system volume_path backing_file fs_type)
        else pure tt
    pure (some requested)

  -- The export path of a share is what is looked at, and the answer is empty.
  unfoldable pub expand_unless_share :
      String → String → AccessType → ℤ → Option ShareResponse → Op (Option ℤ)
  expand_unless_share volume_id volume_path access requested (some share) = do
    mounted ←
        call (probe_mount share.export_path)
          (λ h. ok (is_share_mounted (w.probe_mount h share.export_path)))
    guard (not mounted) (status failed_precondition "share is not in mounted state.")
    pure none
  expand_unless_share volume_id volume_path access requested none = do
    exists ← attempt (call (does_file_exist volume_id) (λ h. w.does_file_exist h volume_id))
    guard (not (value_or false exists)) (status invalid_argument "volume does not exist")
    expand_on_node volume_id volume_path access requested

  unfoldable pub node_expand_volume : String → String → AccessType → CapacityRange → Op (Option ℤ)
  node_expand_volume volume_id volume_path access range = do
    let name = get_volume_name_from_path volume_id
    share ← attempt (call (get_share name) (λ h. w.get_share h name))
    expand_unless_share volume_id volume_path access (requested_size range) (returned_share w share)
