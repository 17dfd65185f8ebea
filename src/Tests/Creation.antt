-- ===== src/Tests/Creation.antt =====
-- The creation of volumes on the small Anvil.
use csi_plugin.Base.{true, false, ℕ, ◌+◌, ◌*◌, ◌≡◌, refl, none, some, [], ◌∷◌, arith}
use csi_plugin.Base.Int.{pos, negsuc}
use csi_plugin.Driver.{World, History}
use csi_plugin.Base.Text.{has_char, base, dir, sprintf}
use csi_plugin.Base.Text.Laws.{IsName}
use csi_plugin.Params.{
  check_file_backed_min_size, parse_vol_params, parse_delete_delay, parse_comment,
  parse_export_options, parse_name_format, parse_tags, parse_objective_target, parse_objectives,
  parse_cache_enabled, parse_fqdn,
}
use csi_plugin.VolumeId.{is_file_backed_volume_id, get_volume_name_from_path}
use csi_plugin.Driver.Ends.{AtEnd}
use csi_plugin.Controller.Create.Identity.{create_volume-file_volume_id}
use csi_plugin.Driver.Since.{Since}
use csi_plugin.Grpc.{ok}
use csi_plugin.Types.{HsVolume, block, multi_node_multi_writer}
use csi_plugin.Mount.Balance.{refs_at}
use csi_plugin.Controller.Create.{create_volume}
use csi_plugin.Controller.Create.File.{wait_for_file}
use csi_plugin.Controller.Create.Plan.{
  CreateRequest, VolumePlan, planned, plan_for, check_modes, check_size, final_plan, volume_of,
  mode_of, size_of, backing_share_of, is_nested, get_mount_flags_from_capabilities,
}
use csi_plugin.Controller.Create.Poll.{Ticks, Decided, wait_for_file-Decided}
use csi_plugin.Controller.Create.Refs.{create_volume-refs}
use csi_plugin.Tests.{world, driver}

-- A block volume of 30 bytes, restored from a snapshot of another one.
abbrev restored : CreateRequest
restored = record {
  name = "vol";
  capabilities = record { access_type = block; access_mode = multi_node_multi_writer } ∷ [];
  parameters = ("blockBackingShareName", "share") ∷ [];
  capacity_range = some (record { required_bytes = pos 30; limit_bytes = pos 0 });
  snapshot = some "snap|/share/other";
}

create_volume-refs_example :
    refs_at (create_volume world restored driver).1 "/tmp/export" ≡ refs_at driver "/tmp/export"
create_volume-refs_example = create_volume-refs world restored "/tmp/export" driver

abbrev volume : HsVolume
volume = record {
  delete_delay = negsuc 0;
  export_options = [];
  objectives = [];
  block_backing_share_name = "share";
  mount_backing_share_name = "";
  size = pos 30;
  name = "vol";
  path = "/share";
  volume_mode = "Block";
  source_snap_path = "";
  fs_type = "";
  comment = "Created by CSI driver";
  source_snap_share_name = "";
  additional_metadata_tags = [];
  fqdn = "";
  mount_flags = [];
  objective_target = "share";
}

no_slash_share : has_char b'/' "share" ≡ false
unfolding has_char
no_slash_share = refl

no_slash_vol : has_char b'/' "vol" ≡ false
unfolding has_char
no_slash_vol = refl

share-IsName : IsName "share"
share-IsName = record {
  no_slash = no_slash_share;
  not_empty = refl;
  not_dot = refl;
  not_dots = refl;
}

vol-IsName : IsName "vol"
vol-IsName = record { no_slash = no_slash_vol; not_empty = refl; not_dot = refl; not_dots = refl }

abbrev plan : VolumePlan
plan = record {
  volume = record volume { size = pos 30; path = "/share" };
  backing_share_name = "share";
  volume_id = "/share/vol";
  mode = record {
    block_requested = true;
    filesystem_requested = false;
    file_backed = true;
    fs_type = "";
  };
  nested = false;
}

plans : planned world.lookup_ip restored ≡ ok plan
unfolding planned plan_for check_modes check_size final_plan volume_of mode_of size_of
    backing_share_of is_nested get_mount_flags_from_capabilities parse_vol_params parse_delete_delay
    parse_comment parse_export_options parse_name_format parse_tags parse_objective_target
    parse_objectives parse_cache_enabled parse_fqdn check_file_backed_min_size sprintf
plans = refl

create_volume-file_volume_id_example :
    AtEnd
      (λ answer _.
        (is_file_backed_volume_id answer.volume_id ≡ true)
        × (get_volume_name_from_path answer.volume_id ≡ plan.volume.name)
        × (base (dir answer.volume_id) ≡ plan.backing_share_name))
      (create_volume world restored driver)
create_volume-file_volume_id_example =
    create_volume-file_volume_id world restored plan driver plans refl share-IsName vol-IsName

-- A host on which every request takes 100 ms.
abbrev events : History → ℕ
events [] = 0
events (e ∷ h) = events h + 1

abbrev ticking : World
ticking = record world { clock = λ h. 100 * events h }

ticks : Ticks ticking
ticks = record { onward = λ e h. omega arith; waits = λ h. omega arith }

wait_for_file-Decided_example :
    Decided (wait_for_file ticking 6001 (ticking.clock driver.history) "/share/vol" none driver).0
wait_for_file-Decided_example = wait_for_file-Decided ticking ticks "/share/vol" driver
