-- ===== src/Tests/Ids.antt =====
-- IDs, parameters, caches and rotations of concrete values.
use csi_plugin.Base.{ℕ, ◌≡◌, ◌↔◌, refl, false, List, [], ◌∷◌, String}
use csi_plugin.Base.Dict.{Dict}
use csi_plugin.Base.Int.{pos, negsuc}
use csi_plugin.Base.Text.{has_char, count, contains, split, trim_space, parse_int}
use csi_plugin.Grpc.{Error, ok, err, status, invalid_argument}
use csi_plugin.Params.{
  HsVolumeParameters, parse_vol_params, parse_delete_delay, parse_comment, parse_export_options,
  parse_name_format, parse_tags, parse_objective_target, parse_objectives, parse_cache_enabled,
  parse_fqdn, check_file_backed_min_size,
}
use csi_plugin.Params.Errors.{IsLargeEnough, check_file_backed_min_size_iff}
use csi_plugin.Tests.{world}

no_bar_snap : has_char b'|' "snap" ≡ false
unfolding has_char
no_bar_snap = refl

no_bar_file : has_char b'|' "/share/vol" ≡ false
unfolding has_char
no_bar_file = refl

abbrev params : Dict String
params =
    ("volumeNameFormat", "csi-%s")
    ∷ ("comment", "a volume")
    ∷ ("objectives", "keep-online,,fast")
    ∷ []

abbrev parsed : HsVolumeParameters
parsed = record {
  delete_delay = negsuc 0;
  export_options = [];
  objectives = "keep-online" ∷ "fast" ∷ [];
  block_backing_share_name = "";
  mount_backing_share_name = "";
  volume_name_format = "csi-%s";
  fs_type = "";
  comment = "a volume";
  additional_metadata_tags = [];
  cache_enabled = false;
  fqdn = "";
  objective_target = "share";
}

parses : parse_vol_params world.lookup_ip params ≡ ok parsed
unfolding parse_vol_params parse_delete_delay parse_comment parse_export_options parse_name_format
    count contains parse_tags parse_objective_target parse_objectives parse_cache_enabled parse_fqdn
    split trim_space
parses = refl

abbrev wrong_delay : Dict String
wrong_delay = ("deleteDelay", "soon") ∷ []

abbrev wrong_delay_error : Error
wrong_delay_error =
    status invalid_argument "deleteDelay parameter must be an Integer. Value received '%s'"

refuses : parse_vol_params world.lookup_ip wrong_delay ≡ err wrong_delay_error
unfolding parse_vol_params parse_delete_delay parse_int
refuses = refl

check_file_backed_min_size_iff_example :
    (check_file_backed_min_size "xfs" (pos 1000) ≡ ok tt) ↔ IsLargeEnough "xfs" (pos 1000)
check_file_backed_min_size_iff_example = check_file_backed_min_size_iff "xfs" (pos 1000)

abbrev portals : List ℕ
portals = 10 ∷ 20 ∷ 30 ∷ []
