-- ===== src/VolumeId.antt =====
-- Volume and snapshot IDs: pkg/driver/utils.go, GetVolumeNameFromPath to
-- GetSnapshotIDFromSnapshotName, and the paths of pkg/common/config.go that they are built from.
pub mod Laws
use csi_plugin.Base.{String, ◌<>◌, ◌==◌, Bool, not, List, [], ◌∷◌}
use csi_plugin.Base.Text.{split, base, dir}
use csi_plugin.Grpc.{Result, ok, err, plain}

abbrev pub share_path_prefix : String
share_path_prefix = "/"

abbrev pub share_staging_dir : String
share_staging_dir = "/tmp"

abbrev pub bar : String
bar = "|"

unfoldable pub get_volume_name_from_path : String → String
unfolding base
get_volume_name_from_path path = base path

unfoldable pub is_file_backed_volume_id : String → Bool
unfolding dir
is_file_backed_volume_id volume_id = not (dir volume_id == share_path_prefix)

abbrev pub improperly_formatted_snapshot_id : String
improperly_formatted_snapshot_id =
    "shapshot ID should be of the format <datetime>|<share export path>, received %s"

-- The tests on `len(tokens)` are the patterns.
first_token : List String → Result String
first_token (name ∷ volume ∷ rest) = ok name
first_token _ = err (plain improperly_formatted_snapshot_id)

second_token : List String → Result String
second_token (name ∷ volume ∷ rest) = ok volume
second_token _ = err (plain improperly_formatted_snapshot_id)

second_base : List String → Result String
unfolding base
second_base (name ∷ volume ∷ rest) = ok (base volume)
second_base _ = err (plain improperly_formatted_snapshot_id)

unfoldable pub get_snapshot_name_from_snapshot_id : String → Result String
unfolding first_token split
get_snapshot_name_from_snapshot_id snapshot_id = first_token (split b'|' snapshot_id)

unfoldable pub get_snapshot_source_volume_id : String → Result String
unfolding second_token split
get_snapshot_source_volume_id snapshot_id = second_token (split b'|' snapshot_id)

unfoldable pub get_share_name_from_snapshot_id : String → Result String
unfolding second_base split
get_share_name_from_snapshot_id snapshot_id = second_base (split b'|' snapshot_id)

unfoldable pub get_snapshot_id_from_snapshot_name : String → String → String
get_snapshot_id_from_snapshot_name hs_snap_name source_volume_id =
    hs_snap_name <> bar <> source_volume_id
