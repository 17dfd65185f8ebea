-- ===== src/Controller/Validate.antt =====
-- ValidateVolumeCapabilities of pkg/driver/controller.go.
pub mod Laws
use csi_plugin.Base.{
  String, ◌==◌, Bool, true, false, not, ◌&&◌, ◌||◌, Option, none, some, List, [], ◌∷◌,
  if◌then◌else◌, is_some,
}
use csi_plugin.Base.Dict.{Dict}
use csi_plugin.Driver.{
  returned_share, World, Op, pure, raise, lift, call, attempt, guard, ◌>>=◌, ◌>>◌, get_share,
  get_file,
}
use csi_plugin.Grpc.{Error, Result, ok, err, status, value_or, invalid_argument, not_found}
use csi_plugin.Params.{HsVolumeParameters, parse_vol_params}
use csi_plugin.Types.{
  ShareResponse, VolumeCapability, AccessType, block, mount, unset, AccessMode,
  multi_node_multi_writer, other_mode,
}
use csi_plugin.VolumeId.{get_volume_name_from_path}

abbrev pub is_multi_writer : AccessMode → Bool
is_multi_writer multi_node_multi_writer = true
is_multi_writer other_mode = false

-- The test of one capability. Of a file-backed volume, a mount by many writers is confirmed only if the
-- parameters name a mount backing share.
unfoldable pub is_confirmed : AccessType → AccessMode → Bool → Bool → Bool → Bool
is_confirmed block mode type_block type_mount file_backed = type_block
is_confirmed (mount fs_type flags) mode type_block type_mount file_backed =
    if not (file_backed && is_multi_writer mode) then true else type_mount
is_confirmed unset mode type_block type_mount file_backed = false

unfoldable pub confirmed_capabilities :
    Bool → Bool → Bool → List VolumeCapability → List VolumeCapability
confirmed_capabilities type_block type_mount file_backed [] = []
confirmed_capabilities type_block type_mount file_backed (c ∷ l) =
    let rest = confirmed_capabilities type_block type_mount file_backed l in
    if is_confirmed c.access_type c.access_mode type_block type_mount file_backed
    then c ∷ rest
    else rest

abbrev is_nil : {A : Type 0} → List A → Bool
is_nil [] = true
is_nil (c ∷ l) = false

module _ (w : World) where
  -- Whether the volume is a file: it is, if there is no share of its name.
  unfoldable pub found_as_file : String → Option ShareResponse → Op Bool
  found_as_file volume_id (some share) = pure false
  found_as_file volume_id none = do
    file ← attempt (call (get_file volume_id) (λ h. w.get_file h volume_id))
    guard (not (is_some (value_or none file))) (status not_found "volume does not exist")
    pure true

  unfoldable pub validate_volume_capabilities :
      String → List VolumeCapability → Dict String → Op (List VolumeCapability)
  validate_volume_capabilities volume_id capabilities parameters = do
    guard (volume_id == "") (status invalid_argument "volume ID cannot be empty")
    guard (is_nil capabilities) (status invalid_argument "no capabilities supplied for volume %s")
    share ← attempt (
        call (get_share (get_volume_name_from_path volume_id))
          (λ h. w.get_share h (get_volume_name_from_path volume_id)))
    params ← lift (parse_vol_params w.lookup_ip parameters)
    file_backed ← found_as_file volume_id (returned_share w share)
    pure (
        confirmed_capabilities (not (params.block_backing_share_name == ""))
          (not (params.mount_backing_share_name == "")) file_backed capabilities)
