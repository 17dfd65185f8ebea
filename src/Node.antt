-- ===== src/Node.antt =====
-- Nested NFS volumes, directories inside a backing share: nestedNFSSubPath and nestedNFSMountFlags of
-- pkg/driver/node_helper.go, and matchNFSExport of pkg/driver/utils.go.
pub mod Laws
pub mod Private
pub mod Publish
pub mod Keeps
pub mod FileBacked
pub mod Service
pub mod Unpublish
pub mod Expand
pub mod Stats
pub mod Safety
use Prim.Native.String.{len, slice}
use text.Mathlib.Text.{starts_with}
use csi_plugin.Base.{
  String, ◌<>◌, ◌==◌, Bool, true, false, not, ◌||◌, List, [], ◌∷◌, ◌++◌, ltb, if◌then◌else◌,
}
use csi_plugin.Base.Text.{split}
use csi_plugin.Grpc.{Result, ok, err, plain}

-- strings.TrimPrefix(s, prefix)
unfoldable pub trim_string_prefix : String → String → String
trim_string_prefix s prefix = if starts_with s prefix then slice s (len prefix) (len s) else s

unfoldable pub nested_nfs_sub_path : String → String → Result String
nested_nfs_sub_path volume_id backing_export_path =
    let sub_path = trim_string_prefix volume_id backing_export_path in
    if (sub_path == volume_id) || (not (starts_with sub_path "/") || ltb (len sub_path) 2)
    then err (plain "volume %s is not a directory inside backing share %s")
    else ok sub_path

-- Whether one of the comma-separated options decides on the sharing of the superblock.
unfoldable pub option_given : List String → Bool
option_given [] = false
option_given (option ∷ options) =
    ((option == "nosharecache") || (option == "sharecache")) || option_given options

unfoldable pub cache_option_given : List String → Bool
unfolding split
cache_option_given [] = false
cache_option_given (flag ∷ flags) = option_given (split b',' flag) || cache_option_given flags

unfoldable pub nested_nfs_mount_flags : List String → List String
nested_nfs_mount_flags flags =
    if cache_option_given flags then flags else flags ++ "nosharecache" ∷ []

-- fmt.Sprintf("%s%s", mountPrefix, shareExportPath) among the exports.
unfoldable pub is_exported : String → List String → Bool
is_exported path [] = false
is_exported path (e ∷ exports) =
    let rest = is_exported path exports in if e == path then true else rest

-- common.DefaultDataPortalMountPrefixes
abbrev pub default_data_portal_mount_prefixes : List String
default_data_portal_mount_prefixes = "/" ∷ "/mnt/data-portal" ∷ "" ∷ []

unfoldable pub match_under : List String → List String → String → String → String → String
match_under [] exports addr share_export_path sub_path = ""
match_under (mount_prefix ∷ prefixes) exports addr share_export_path sub_path =
    let rest = match_under prefixes exports addr share_export_path sub_path in
    if is_exported (mount_prefix <> share_export_path) exports
    then addr <> ":" <> mount_prefix <> share_export_path <> sub_path
    else rest

unfoldable pub match_nfs_export : List String → String → String → String → String
match_nfs_export = match_under default_data_portal_mount_prefixes
