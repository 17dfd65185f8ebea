-- ===== src/Params.antt =====
-- StorageClass parameters: parseVolParams and checkFileBackedMinSize of pkg/driver/controller.go, and
-- the types of pkg/common/hs_types.go that they fill. DNS is the parameter `lookup_ip`.
pub mod Laws
pub mod Errors
use csi_plugin.Base.{
  ℕ, ◌*◌, String, ◌==◌, Bool, true, false, not, ◌&&◌, ◌||◌, Option, none, some, List, [], ◌∷◌, ltb,
  eqb, if◌then◌else◌,
}
use csi_plugin.Base.Int.{ℤ, pos, negsuc, ltb_ℤ}
use csi_plugin.Base.Text.{split, trim_space, contains, count, parse_int, parse_bool}
use csi_plugin.Base.Dict.{Dict, lookup, insert}
use csi_plugin.Grpc.{Error, Result, ok, err, status, Code, invalid_argument, ◌>>=◌, ◌>>◌, guard}
use Prim.Native.String.{len}

pub record ShareExportOptions : Type 0 where
  pub subnet : String
  pub access_permissions : String
  pub root_squash : Bool

-- `additionalMetadataTags` is nil in the source where it is empty here.
pub record HsVolumeParameters : Type 0 where
  pub delete_delay : ℤ
  pub export_options : List ShareExportOptions
  pub objectives : List String
  pub block_backing_share_name : String
  pub mount_backing_share_name : String
  pub volume_name_format : String
  pub fs_type : String
  pub comment : String
  pub additional_metadata_tags : Dict String
  pub cache_enabled : Bool
  pub fqdn : String
  pub objective_target : String

-- params[key], which is "" where the key is missing.
abbrev pub value_or_empty : Option String → String
value_or_empty none = ""
value_or_empty (some v) = v

unfoldable pub get : Dict String → String → String
unfolding lookup
get params key = value_or_empty (lookup key params)

abbrev invalid : String → Error
invalid message = status invalid_argument message

abbrev int_or_error : Option ℤ → Result ℤ
int_or_error none = err (invalid "deleteDelay parameter must be an Integer. Value received '%s'")
int_or_error (some n) = ok n

unfoldable pub parse_delete_delay : Option String → Result ℤ
parse_delete_delay none = ok (negsuc 0)
parse_delete_delay (some v) = int_or_error (parse_int v)

-- Max comment length in system manager is 255; `len` counts bytes, as Go's does.
unfoldable pub parse_comment : Option String → Result String
parse_comment none = ok "Created by CSI driver"
parse_comment (some v) =
    if ltb 255 (len v)
    then err (invalid "share comment cannot be longer than 255 characters")
    else ok v

keep_objectives : List String → List String
keep_objectives [] = []
keep_objectives (o ∷ l) =
    let rest = keep_objectives l in if trim_space o == "" then rest else trim_space o ∷ rest

unfoldable pub parse_objectives : Option String → List String
unfolding keep_objectives
parse_objectives none = []
parse_objectives (some v) = keep_objectives (split b',' v)

root_squash_or_error : Option Bool → Result Bool
root_squash_or_error none = err (invalid "rootSquash must be a bool. Value received '%s'")
root_squash_or_error (some b) = ok b

-- The options of one export: the test on `len(options)` is the pattern.
parse_export_option : List String → Result ShareExportOptions
unfolding root_squash_or_error
parse_export_option (subnet ∷ access ∷ squash ∷ []) = do
  root_squash ← root_squash_or_error (parse_bool (trim_space squash))
  ok (record {
    subnet = trim_space subnet;
    access_permissions = trim_space access;
    root_squash = root_squash;
  })
parse_export_option _ =
    err (invalid "export options must consist of 3 values: subnet,access,rootSquash, received '%s'")

parse_export_list : List String → Result (List ShareExportOptions)
unfolding parse_export_option
parse_export_list [] = ok []
parse_export_list (o ∷ l) = do
  option ← parse_export_option (split b',' o)
  options ← parse_export_list l
  ok (option ∷ options)

unfoldable pub parse_export_options : Option String → Result (List ShareExportOptions)
unfolding parse_export_list
parse_export_options none = ok []
parse_export_options (some v) = parse_export_list (split b';' v)

unfoldable pub parse_name_format : Option String → Result String
parse_name_format none = ok "%s"
parse_name_format (some v) = do
  guard (not (eqb (count v "%s") 1)) (invalid "volumeNameFormat must contain \"%s\" exactly once")
  guard (contains v "/") (invalid "volumeNameFormat must not contain forward slashes")
  ok v

tag_of : List String → Dict String → Result (Dict String)
tag_of (key ∷ value ∷ []) tags = ok (insert (trim_space key) (trim_space value) tags)
tag_of _ tags = err (invalid "extended Info must be of format key=value, received '%s'")

parse_tag_list : List String → Dict String → Result (Dict String)
unfolding tag_of
parse_tag_list [] tags = ok tags
parse_tag_list (m ∷ l) tags = do tags' ← tag_of (split b'=' m) tags; parse_tag_list l tags'

unfoldable pub parse_tags : Option String → Result (Dict String)
unfolding parse_tag_list
parse_tags none = ok []
parse_tags (some v) = parse_tag_list (split b',' v) []

-- A value that is no Boolean is false.
abbrev bool_or_false : Option Bool → Bool
bool_or_false none = false
bool_or_false (some b) = b

unfoldable pub parse_cache_enabled : String → Bool
parse_cache_enabled v = if v == "" then false else bool_or_false (parse_bool v)

unfoldable pub parse_objective_target : String → Result String
parse_objective_target target =
    if target == "" || target == "share"
    then ok "share"
    else if target == "file" || target == "both"
    then ok target
    else err (invalid "invalid objectiveTarget %q (must be one of: share, file, both)")

module _ (lookup_ip : String → Option (List String)) where
  -- ResolveFQDN of pkg/common/host_utils.go: the first address, or an error.
  unfoldable pub resolve_fqdn : String → Option String
  resolve_fqdn fqdn = if fqdn == "" then none else elim (lookup_ip fqdn) [
    | none ↦ none
    | some ips ↦ elim ips [ [] ↦ none | ip ∷ rest ↦ some ip ]
  ]

  unfoldable pub parse_fqdn : String → String
  unfolding resolve_fqdn
  parse_fqdn v = if v == "" then "" else elim (resolve_fqdn v) [ none ↦ "" | some ip ↦ v ]

  unfoldable pub parse_vol_params : Dict String → Result HsVolumeParameters
  unfolding get
  parse_vol_params params = do
    delete_delay ← parse_delete_delay (lookup "deleteDelay" params)
    comment ← parse_comment (lookup "comment" params)
    let objectives = parse_objectives (lookup "objectives" params)
    export_options ← parse_export_options (lookup "exportOptions" params)
    volume_name_format ← parse_name_format (lookup "volumeNameFormat" params)
    tags ← parse_tags (lookup "additionalMetadataTags" params)
    objective_target ← parse_objective_target (get params "objectiveTarget")
    ok (record {
      delete_delay = delete_delay;
      export_options = export_options;
      objectives = objectives;
      block_backing_share_name = get params "blockBackingShareName";
      mount_backing_share_name = get params "mountBackingShareName";
      volume_name_format = volume_name_format;
      fs_type = get params "fsType";
      comment = comment;
      additional_metadata_tags = tags;
      cache_enabled = parse_cache_enabled (get params "cacheEnabled");
      fqdn = parse_fqdn (get params "fqdn");
      objective_target = objective_target;
    })

abbrev pub min_xfs_size_bytes : ℕ
min_xfs_size_bytes = 300 * 1024 * 1024

abbrev pub min_ext4_size_bytes : ℕ
min_ext4_size_bytes = 20 * 1024 * 1024

unfoldable pub check_file_backed_min_size : String → ℤ → Result (Unit {0})
check_file_backed_min_size fs_type requested_size =
    if fs_type == "xfs"
    then guard (ltb_ℤ requested_size (pos min_xfs_size_bytes))
        (invalid "fsType=xfs volumes must be at least %d bytes (%d MiB)")
    else if fs_type == "ext4"
    then guard (ltb_ℤ requested_size (pos min_ext4_size_bytes))
        (invalid "fsType=ext4 volumes must be at least %d bytes (%d MiB)")
    else if fs_type == "ext3"
    then err (invalid "fsType=ext3 is not supported; use ext4 or xfs.")
    else ok tt
