-- ===== src/Node/Service.antt =====
-- The node service of pkg/driver/node.go: staging, unstaging and publishing, what a node says of itself,
-- and the markers of older drivers (pkg/driver/utils.go).
use csi_plugin.Base.{
  String, ◌<>◌, ◌==◌, Bool, true, false, not, ◌||◌, Option, none, some, List, [], ◌∷◌,
  if◌then◌else◌,
}
use csi_plugin.Base.Dict.{Dict, lookup}
use csi_plugin.Base.Int.{ℤ, pos, ltb_ℤ}
use csi_plugin.Base.Text.{has_suffix, join_path, parse_int}
use csi_plugin.Driver.{
  World, Op, Probe, answered, not_exist, failed, Fault, io_error, stale_handle, other_fault,
  DataPortal, get_data_portals, read_dir, remove_file, stat_file, pure, raise, call, attempt, guard,
  map_error, host, probe_path, last_fault, unmount_path, with_volume_lock, ◌>>=◌, ◌>>◌,
}
use csi_plugin.Grpc.{Result, ok, err, status, value_or, internal, invalid_argument}
use csi_plugin.Node.FileBacked.{publish_file_backed_volume}
use csi_plugin.Node.Publish.{force_detach, publish_share_backed_volume, stage_nfs_volume}
use csi_plugin.Params.{value_or_empty}
use csi_plugin.Types.{VolumeCapability, AccessType, block, mount, unset}

-- The type of the capability, then that of the volume context, then "nfs".
unfoldable pub node_volume_fs_type : AccessType → Dict String → String
node_volume_fs_type block context = ""
node_volume_fs_type unset context = ""
node_volume_fs_type (mount fs_type flags) context =
    let given = value_or_empty (lookup "fsType" context) in
    if not (fs_type == "") then fs_type else if not (given == "") then given else "nfs"

unfoldable pub mount_flags_of : AccessType → List String
mount_flags_of block = []
mount_flags_of unset = []
mount_flags_of (mount fs_type flags) = flags

-- maxVolumesPerNode, from the text of MAX_VOLUMES_PER_NODE.
unfoldable pub limit_of : Option ℤ → ℤ
limit_of none = pos 0
limit_of (some n) = if ltb_ℤ n (pos 0) then pos 0 else n

unfoldable pub max_volumes_per_node : String → ℤ
unfolding limit_of
max_volumes_per_node value = if value == "" then pos 0 else limit_of (parse_int value)

unfoldable pub is_data_portal : String → List DataPortal → Bool
is_data_portal node_id [] = false
is_data_portal node_id (p ∷ portals) = (p.name == node_id) || is_data_portal node_id portals

pub record NodeInfo : Type 0 where
  pub node_id : String
  pub max_volumes_per_node : ℤ
  pub is_data_portal : Bool

abbrev base_volume_marker_source_path : String
base_volume_marker_source_path = "/var/lib/hammerspace/volumes"

abbrev base_backing_share_mount_path : String
base_backing_share_mount_path = "/var/lib/hammerspace/rootmount"

-- IsAnyVolumeStillMounted, on the names of the files.
unfoldable pub any_marker : List String → Bool
any_marker [] = false
any_marker (f ∷ files) = has_suffix f ".marker" || any_marker files

module _ (w : World) where
  unfoldable pub node_get_info : Op NodeInfo
  node_get_info = do
    portals ← call get_data_portals (λ h. w.get_data_portals h)
    pure (record {
      node_id = w.node_id;
      max_volumes_per_node = max_volumes_per_node w.max_volumes_per_node;
      is_data_portal = is_data_portal w.node_id portals;
    })

  unfoldable pub stage_capability :
      String → String → Dict String → Option VolumeCapability → Op (Unit {0})
  stage_capability volume_id staging context none =
      raise (status invalid_argument "VolumeCapability must be provided")
  stage_capability volume_id staging context (some c) =
      if node_volume_fs_type c.access_type context == "nfs"
      then stage_nfs_volume w volume_id staging (mount_flags_of c.access_type) context
      else pure tt

  unfoldable pub node_stage_volume :
      String → String → Option VolumeCapability → Dict String → Op (Unit {0})
  node_stage_volume volume_id staging capability context = do
    guard (volume_id == "") (status invalid_argument "Volume ID missing")
    guard (staging == "") (status invalid_argument "Staging target path missing")
    stage_capability volume_id staging context capability

  -- GetHashedMarkerPath
  abbrev hashed_marker_path : String → String
  hashed_marker_path volume_id =
      join_path base_volume_marker_source_path (w.sha256 volume_id <> ".marker")

  -- err != nil && !os.IsNotExist(err)
  abbrev unless_gone : Result (Unit {0}) → Op (Unit {0})
  unless_gone (ok _) = pure tt
  unless_gone (err e) =
      if w.not_exist_error e then pure tt else raise (status internal "remove volume marker %s: %v")

  unfoldable pub drop_marker : String → Op (Unit {0})
  drop_marker marker = with_volume_lock w base_backing_share_mount_path (do
    removed ← attempt (host w (remove_file marker))
    unless_gone removed
    files ← attempt (
        call (read_dir base_volume_marker_source_path)
          (λ h. w.read_dir h base_volume_marker_source_path))
    if any_marker (value_or [] files)
        then pure tt
        else map_error (unmount_path w base_backing_share_mount_path)
            (λ e. status internal "unmount root export: %v"))

  unfoldable pub release_stated : String → Probe → Op (Unit {0})
  release_stated marker (answered b) = drop_marker marker
  release_stated marker not_exist = pure tt
  release_stated marker failed = drop_marker marker

  unfoldable pub release_legacy_root_export : String → Op (Unit {0})
  release_legacy_root_export volume_id = do
    let marker = hashed_marker_path volume_id
    stated ← call (stat_file marker) (λ h. ok (w.stat h marker))
    release_stated marker stated

  unfoldable pub detach_stale : String → Fault → Op (Unit {0})
  detach_stale staging io_error =
      map_error (force_detach w staging)
        λ e. status internal "force-unmount stale NFS staging target: %v"
  detach_stale staging stale_handle =
      map_error (force_detach w staging)
        λ e. status internal "force-unmount stale NFS staging target: %v"
  detach_stale staging other_fault = pure tt

  unfoldable pub unmount_staged : String → Probe → Op (Unit {0})
  unmount_staged staging (answered true) =
      map_error (unmount_path w staging) λ e. status internal "unmount NFS staging target: %v"
  unmount_staged staging (answered false) = pure tt
  unmount_staged staging not_exist = pure tt
  unmount_staged staging failed = do fault ← last_fault w staging; detach_stale staging fault

  unfoldable pub node_unstage_volume : String → String → Op (Unit {0})
  node_unstage_volume volume_id staging = do
    guard (volume_id == "") (status invalid_argument "Volume ID missing")
    guard (staging == "") (status invalid_argument "Staging target path missing")
    answer ← probe_path w staging
    unmount_staged staging answer
    release_legacy_root_export volume_id

  unfoldable pub publish_as :
      String → String → String → Bool → Dict String → AccessType → Op (Unit {0})
  publish_as volume_id staging target read_only context block =
      publish_file_backed_volume w (value_or_empty (lookup "blockBackingShareName" context))
        volume_id target "" [] read_only (value_or_empty (lookup "fqdn" context))
  publish_as volume_id staging target read_only context (mount t flags) =
      let fs_type = node_volume_fs_type (mount t flags) context in
      if fs_type == "nfs"
      then publish_share_backed_volume w volume_id staging target flags read_only context
      else publish_file_backed_volume w (value_or_empty (lookup "mountBackingShareName" context))
          volume_id target fs_type flags read_only (value_or_empty (lookup "fqdn" context))
  publish_as volume_id staging target read_only context unset =
      raise (status invalid_argument "no capabilities supplied for volume %s")

  unfoldable pub publish_capability :
      String → String → String → Bool → Dict String → Option VolumeCapability → Op (Unit {0})
  publish_capability volume_id staging target read_only context none =
      raise (status invalid_argument "no capabilities supplied for volume %s")
  publish_capability volume_id staging target read_only context (some c) =
      with_volume_lock w volume_id
        (publish_as volume_id staging target read_only context c.access_type)

  unfoldable pub node_publish_volume :
      String → String → String → Option VolumeCapability → Bool → Dict String → Op (Unit {0})
  node_publish_volume volume_id staging target capability read_only context = do
    guard (volume_id == "") (status invalid_argument "volume ID cannot be empty")
    guard (target == "") (status invalid_argument "target path cannot be empty")
    publish_capability volume_id staging target read_only context capability
