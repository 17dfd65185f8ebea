-- ===== src/Tests/Nested.antt =====
-- Nested NFS volumes of concrete paths and flags.
use Prim.Native.String.{len}
use text.Mathlib.Text.{starts_with}
use csi_plugin.Base.{String, ◌≡◌, ◌↔◌, ◌<◌, refl, true}
use csi_plugin.Grpc.{ok}
use csi_plugin.Node.{trim_string_prefix, nested_nfs_sub_path}
use csi_plugin.Node.Laws.{nested_nfs_sub_path_iff}

abbrev nested_id : String
nested_id = "/share/vol"

nested_run : nested_nfs_sub_path "/share/vol" "/share" ≡ ok "/vol"
unfolding nested_nfs_sub_path trim_string_prefix
nested_run = refl

nested_nfs_sub_path_iff_example : (nested_nfs_sub_path "/share/vol" "/share" ≡ ok "/vol") ↔ (
    (nested_id ≡ "/share/vol")
    × (0 < len "/share")
    × (starts_with "/vol" "/" ≡ true)
    × (1 < len "/vol"))
nested_nfs_sub_path_iff_example = nested_nfs_sub_path_iff nested_id "/share" "/vol"
