-- ===== src/Controller/Create/Plan.antt =====
-- The volume that a request of CreateVolume describes (pkg/driver/controller.go), before anything is
-- asked of the Anvil.
use Prim.Native.String.{len}
use csi_plugin.Base.{
  ℕ, String, ◌<>◌, ◌==◌, Bool, true, false, not, ◌&&◌, ◌||◌, Option, none, some, List, [], ◌∷◌, ltb,
  if◌then◌else◌, is_some,
}
use csi_plugin.Base.Dict.{Dict, insert}
use csi_plugin.Base.Int.{ℤ, pos, eqb_ℤ}
use csi_plugin.Base.Text.{sprintf, format_int}
use csi_plugin.Grpc.{
  Error, Result, ok, err, status, text, invalid_argument, not_found, unimplemented, ◌>>=◌, ◌>>◌,
  guard,
}
use csi_plugin.Params.{HsVolumeParameters, parse_vol_params, check_file_backed_min_size}
use csi_plugin.Types.{HsVolume, CapacityRange, VolumeCapability, AccessType, block, mount, unset}
use csi_plugin.VolumeId.{
  share_path_prefix, get_snapshot_name_from_snapshot_id, get_share_name_from_snapshot_id,
}

-- `snapshot` is the ID of a snapshot source.
pub record CreateRequest : Type 0 where
  pub name : String
  pub capabilities : List VolumeCapability
  pub parameters : Dict String
  pub capacity_range : Option CapacityRange
  pub snapshot : Option String

pub record CreateResponse : Type 0 where
  pub capacity_bytes : ℤ
  pub volume_id : String
  pub volume_context : Dict String
  pub source : Option String

-- What the capabilities ask for.
pub record Mode : Type 0 where
  pub block_requested : Bool
  pub filesystem_requested : Bool
  pub file_backed : Bool
  pub fs_type : String

-- A mount without a type is NFS, which is not backed by a file; `nfs` itself leaves that as it was.
abbrev pub mounted_mode : String → Mode → Mode
mounted_mode fs_type m =
    if fs_type == ""
    then record m { filesystem_requested = true; fs_type = "nfs"; file_backed = false }
    else record m {
      filesystem_requested = true;
      fs_type = fs_type;
      file_backed = if fs_type == "nfs" then m.file_backed else true;
    }

abbrev pub next_mode : String → AccessType → Mode → Mode
next_mode fs_type block m = record m { block_requested = true; file_backed = true }
next_mode fs_type (mount t flags) m = mounted_mode fs_type m
next_mode fs_type unset m = m

unfoldable pub mode_of : String → List VolumeCapability → Mode → Mode
mode_of fs_type [] m = m
mode_of fs_type (c ∷ l) m = mode_of fs_type l (next_mode fs_type c.access_type m)

abbrev pub no_mode : Mode
no_mode = record {
  block_requested = false;
  filesystem_requested = false;
  file_backed = false;
  fs_type = "";
}

-- getMountFlagsFromCapabilities
unfoldable pub get_mount_flags_from_capabilities : List VolumeCapability → List String
get_mount_flags_from_capabilities [] = []
get_mount_flags_from_capabilities (c ∷ l) =
    let rest = get_mount_flags_from_capabilities l in
    elim c.access_type [ mount t flags ↦ flags | block ↦ rest | unset ↦ rest ]

abbrev pub default_backing_file_size_bytes : ℕ
default_backing_file_size_bytes = 1073741824

unfoldable pub size_of : Option CapacityRange → Bool → ℤ
size_of (some range) file_backed =
    if eqb_ℤ range.limit_bytes (pos 0) then range.required_bytes else range.limit_bytes
size_of none file_backed = if file_backed then pos default_backing_file_size_bytes else pos 0

unfoldable pub backing_share_of : HsVolumeParameters → Mode → String → String
backing_share_of p m volume_name =
    if m.block_requested
    then p.block_backing_share_name
    else if (p.mount_backing_share_name == "") && (m.fs_type == "nfs")
    then volume_name
    else p.mount_backing_share_name

-- A directory inside a share that the parameters name.
unfoldable pub is_nested : HsVolumeParameters → Mode → Bool
is_nested p m =
    not m.file_backed && ((m.fs_type == "nfs") && not (p.mount_backing_share_name == ""))

-- What is to be created: the volume, its backing share, its ID where that does not depend on the
-- creation, and the mode.
pub record VolumePlan : Type 0 where
  pub volume : HsVolume
  pub backing_share_name : String
  pub volume_id : String
  pub mode : Mode
  pub nested : Bool

abbrev pub restore_unsupported : Error
restore_unsupported =
    status unimplemented
      "snapshot restore is not supported for share-backed NFS volumes; only file-backed and block volumes can be restored from a snapshot"

unfoldable pub check_modes : Mode → Result (Unit {0})
check_modes m =
    if m.block_requested && m.filesystem_requested
    then err (status invalid_argument "cannot request a volume to be both raw and a filesystem")
    else if m.block_requested || m.filesystem_requested
    then ok tt
    else err (status invalid_argument "no capabilities supplied for volume %s")

unfoldable pub volume_of : CreateRequest → HsVolumeParameters → Mode → String → HsVolume
volume_of req p m path = record {
  delete_delay = p.delete_delay;
  export_options = p.export_options;
  objectives = p.objectives;
  block_backing_share_name = p.block_backing_share_name;
  mount_backing_share_name = p.mount_backing_share_name;
  size = size_of req.capacity_range m.file_backed;
  name = sprintf p.volume_name_format req.name;
  path = path;
  volume_mode = if m.block_requested then "Block" else "Filesystem";
  source_snap_path = "";
  fs_type = m.fs_type;
  comment = p.comment;
  source_snap_share_name = "";
  additional_metadata_tags = p.additional_metadata_tags;
  fqdn = p.fqdn;
  mount_flags = get_mount_flags_from_capabilities req.capabilities;
  objective_target = p.objective_target;
}

unfoldable pub check_size : CreateRequest → Mode → Result (Unit {0})
check_size req m =
    if m.file_backed
    then check_file_backed_min_size m.fs_type (size_of req.capacity_range m.file_backed)
    else ok tt

unfoldable pub final_plan : CreateRequest → HsVolumeParameters → Mode → Result VolumePlan
final_plan req p m = do
  let name = sprintf p.volume_name_format req.name
  let backing = backing_share_of p m name
  guard (is_some req.snapshot && (not m.file_backed && not (is_nested p m))) restore_unsupported
  let path = share_path_prefix <> backing
  ok (record {
    volume = volume_of req p m path;
    backing_share_name = backing;
    volume_id = if m.file_backed then path <> "/" <> name else path;
    mode = m;
    nested = is_nested p m;
  })

unfoldable pub plan_for : CreateRequest → HsVolumeParameters → Mode → Result VolumePlan
plan_for req p m = do check_modes m; check_size req m; final_plan req p m

abbrev pub max_name_length : ℕ
max_name_length = 128

abbrev pub no_capabilities : CreateRequest → Bool
no_capabilities req = elim req.capabilities [ [] ↦ true | c ∷ l ↦ false ]

-- The checks that need no answer of the Anvil. `len` counts bytes, as Go's does.
unfoldable pub planned : (String → Option (List String)) → CreateRequest → Result VolumePlan
planned lookup_ip req = do
  guard (req.name == "") (status invalid_argument "volume ID cannot be empty")
  guard (ltb max_name_length (len req.name))
      (status invalid_argument "volume ID cannot be longer than %d characters")
  guard (no_capabilities req) (status invalid_argument "no capabilities supplied for volume %s")
  params ← parse_vol_params lookup_ip req.parameters
  plan_for req params (mode_of params.fs_type req.capabilities no_mode)

unfoldable pub is_value_in_list : String → List String → Bool
is_value_in_list value [] = false
is_value_in_list value (v ∷ l) =
    let rest = is_value_in_list value l in if v == value then true else rest

unfoldable pub check_objectives : List String → List String → Result (Unit {0})
check_objectives [] on_cluster = ok tt
check_objectives (o ∷ l) on_cluster = do
  guard (not (is_value_in_list o on_cluster))
      (status invalid_argument "cannot find objective with the name %s")
  check_objectives l on_cluster

-- The volume with the names of its source snapshot and its share.
abbrev pub sourced : Result String → Result String → HsVolume → Result HsVolume
sourced (err e) share volume = err (status not_found (text e))
sourced (ok name) (err e) volume = err (status not_found (text e))
sourced (ok name) (ok share) volume =
    ok (record volume { source_snap_path = name; source_snap_share_name = share })

unfoldable pub with_source : Option String → HsVolume → Result HsVolume
with_source none volume = ok volume
with_source (some id) volume =
    sourced (get_snapshot_name_from_snapshot_id id) (get_share_name_from_snapshot_id id) volume

-- The `fqdn` of the parameters as they are given.
abbrev with_fqdn : String → Dict String → Dict String
with_fqdn fqdn context = if fqdn == "" then context else insert "fqdn" fqdn context

unfoldable pub volume_context : HsVolume → String → Dict String
volume_context volume fqdn =
    let context =
      with_fqdn fqdn
        (insert "mode" volume.volume_mode (insert "size" (format_int volume.size) [])) in
    if volume.volume_mode == "Block"
    then insert "blockBackingShareName" volume.block_backing_share_name context
    else insert "fsType" volume.fs_type
        (insert "mountBackingShareName" volume.mount_backing_share_name context)
