-- ===== src/Operator/Classes.antt =====
-- The StorageClasses that the operator renders, as the driver reads them (parseVolParams of
-- pkg/driver/controller.go).
use csi_plugin.Base.{
  String, ◌==◌, ◌≡◌, refl, false, List, [], Option, Bool-cases, inl, inr, if◌then◌else◌,
}
use csi_plugin.Base.Dict.{lookup, insert, erase}
use csi_plugin.Base.Int.{negsuc}
use csi_plugin.Base.Text.{count, contains}
use csi_plugin.Grpc.{ok}
use csi_plugin.Params.{
  HsVolumeParameters, get, parse_vol_params, parse_delete_delay, parse_comment, parse_objectives,
  parse_export_options, parse_name_format, parse_tags, parse_objective_target, parse_cache_enabled,
  parse_fqdn,
}
use csi_plugin.Operator.{StorageClass}
use csi_plugin.Operator.Render.{class_parameters}

-- What a volume of the class is made with.
abbrev pub volume_parameters : StorageClass → HsVolumeParameters
volume_parameters sc = record {
  delete_delay = negsuc 0;
  export_options = [];
  objectives = [];
  block_backing_share_name =
      if sc.mode == "NFS" then "" else if sc.mode == "Block" then sc.backing_share_name else "";
  mount_backing_share_name =
      if sc.mode == "NFS" then "" else if sc.mode == "Block" then "" else sc.backing_share_name;
  volume_name_format = "csi-%s";
  fs_type = if sc.mode == "NFS" then "nfs" else if sc.mode == "Block" then "" else sc.mode;
  comment = "Created by CSI driver";
  additional_metadata_tags = [];
  cache_enabled = false;
  fqdn = "";
  objective_target = "share";
}

-- The driver accepts the parameters of each StorageClass that the operator renders, and reads the mode
-- and the backing share back from them: the backing share is the block one for the mode `Block`, the
-- mount one for a file system and none for NFS, and all else has the defaults.
pub parse_vol_params-class_parameters :
    (lookup_ip : String → Option (List String)) (sc : StorageClass)
    → parse_vol_params lookup_ip (class_parameters sc) ≡ ok (volume_parameters sc)
unfolding class_parameters parse_vol_params get lookup insert erase parse_delete_delay parse_comment
    parse_objectives parse_export_options parse_name_format parse_tags parse_objective_target
    parse_cache_enabled parse_fqdn count contains
parse_vol_params-class_parameters lookup_ip sc = elim (Bool-cases (sc.mode == "NFS")) [
  | inl nfs ↦ rw nfs refl
  | inr other ↦ elim (Bool-cases (sc.mode == "Block")) [
    | inl block ↦ rw (other, block) refl
    | inr files ↦ rw (other, files) refl
  ]
]
