-- ===== src/Controller/Create.antt =====
-- CreateVolume of pkg/driver/controller.go. Create/Plan is what the request describes, and
-- Create/Backing, Create/File and Create/Share are what the handler calls.
pub mod Plan
pub mod Backing
pub mod File
pub mod Share
pub mod Planned
pub mod Keeps
pub mod Handler
pub mod Refs
pub mod Safety
pub mod Poll
pub mod Identity
use Prim.Native.String.{len}
use csi_plugin.Base.{
  ℕ, String, ◌<>◌, ◌==◌, Bool, true, false, not, Option, none, some, List, [], ◌∷◌, ltb,
  if◌then◌else◌,
}
use csi_plugin.Base.Dict.{lookup}
use csi_plugin.Base.Int.{ℤ, pos, ltb_ℤ}
use csi_plugin.Driver.{
  World, Op, CacheData, number, names, list_objective_names, pure, raise, lift, call, guard,
  map_error, cached, with_volume_lock, ◌>>=◌, ◌>>◌,
}
use csi_plugin.Grpc.{status, text, internal, invalid_argument, unimplemented}
use csi_plugin.Params.{HsVolumeParameters, parse_vol_params, value_or_empty}
use csi_plugin.Types.{HsVolume}
use csi_plugin.VolumeId.{share_path_prefix}
use csi_plugin.Controller.Capacity.{get_cluster_available_capacity}
use Plan.{
  CreateRequest, CreateResponse, Mode, VolumePlan, planned, check_objectives, with_source,
  volume_context,
}
use Backing.{as_internal, ensure_nfs_directory_exists}
use File.{ensure_file_backed_volume_exists, exceeds_available}
use Share.{ensure_share_backed_volume_exists}

module _ (w : World) where
  unfoldable pub free_capacity : Option CacheData → Op ℤ
  free_capacity (some (number n)) = pure n
  free_capacity (some (names l)) = raise (status internal "unexpected type for free capacity")
  free_capacity none = map_error (get_cluster_available_capacity w) as_internal

  unfoldable pub check_capacity : ℤ → Op (Unit {0})
  check_capacity size = if not (ltb_ℤ (pos 0) size) then pure tt else do
    found ← cached w "FREE_CAPACITY"
    available ← free_capacity found
    guard (ltb_ℤ available size) exceeds_available

  -- A cached value that is no list of names is used as an empty list.
  unfoldable pub objectives_on_cluster : Option CacheData → Op (List String)
  objectives_on_cluster (some (names l)) = pure l
  objectives_on_cluster (some (number n)) = pure []
  objectives_on_cluster none =
      map_error (call list_objective_names (λ h. w.list_objective_names h)) as_internal

  unfoldable pub check_cluster : VolumePlan → Op (Unit {0})
  check_cluster plan = do
    check_capacity plan.volume.size
    found ← cached w "OBJECTIVE_LIST_NAMES"
    on_cluster ← objectives_on_cluster found
    lift (check_objectives plan.volume.objectives on_cluster)

  unfoldable pub create_nested : String → HsVolume → Op String
  create_nested backing_share_name volume = do
    guard (not (volume.source_snap_path == "")) (
        status unimplemented
          "snapshot restore is not supported for NFS volumes provisioned with mountBackingShareName")
    map_error (ensure_nfs_directory_exists w backing_share_name volume)
        λ e. status internal "failed to ensure base NFS share (%s): %v"
    pure (share_path_prefix <> backing_share_name <> "/" <> volume.name)

  -- The three ways to create the volume; the result is its ID.
  unfoldable pub create_planned : VolumePlan → HsVolume → Op String
  create_planned plan volume =
      if plan.nested
      then create_nested plan.backing_share_name volume
      else if plan.mode.file_backed
      then (do
        ensure_file_backed_volume_exists w volume plan.backing_share_name
        pure plan.volume_id)
      else ensure_share_backed_volume_exists w volume

  unfoldable pub response_to : CreateRequest → VolumePlan → String → CreateResponse
  response_to req plan volume_id = record {
    capacity_bytes = plan.volume.size;
    volume_id = volume_id;
    volume_context = volume_context plan.volume (value_or_empty (lookup "fqdn" req.parameters));
    source = req.snapshot;
  }

  unfoldable pub carry_out : CreateRequest → VolumePlan → Op CreateResponse
  carry_out req plan = do
    check_cluster plan
    with_volume_lock w plan.volume.name (do
      volume ← lift (with_source req.snapshot plan.volume)
      volume_id ← create_planned plan volume
      pure (response_to req plan volume_id))

  unfoldable pub create_volume : CreateRequest → Op CreateResponse
  create_volume req = do plan ← lift (planned w.lookup_ip req); carry_out req plan
