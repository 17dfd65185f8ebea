-- ===== src/Tests/Machines.antt =====
-- A small host and cluster: one loop device, the superblock of an xfs file system and two exports.
use csi_plugin.Base.{
  ℕ, ◌*◌, ◌≤◌, ◌^◌, ◌-◌, String, ◌==◌, ◌≡◌, refl, true, false, none, some, List, [], ◌∷◌,
  if◌then◌else◌,
}
use csi_plugin.Base.Dict.{lookup, insert, erase}
use csi_plugin.Base.Int.{pos, mul64}
use csi_plugin.Base.Text.{split, trim_space, parse_int}
use csi_plugin.Effect.{◌>>=◌}
use csi_plugin.Freezer.{Kube, Pod, freeze_for_volume_handle, unfreeze}
use csi_plugin.Freezer.Thaws.{Thawed, freeze_for_volume_handle-Thawed}
use csi_plugin.Grpc.{Result, ok}
use csi_plugin.Host.{Machine, exec_command}
use csi_plugin.Host.Attempts.{here, after, begins, start, begin_mount, in_mount, one_mount_at_once}
use csi_plugin.Host.Growth.{
  read_lines, read_entry, cut, check_geometry, parse_filesystem_geometry, parse_filesystem_size,
}
use csi_plugin.Host.Growth.Laws.{parse_filesystem_size-IsProduct}
use csi_plugin.Host.Mounting.{set_metadata_tags}
use csi_plugin.Host.Mounting.Laws.{outcome, set_metadata_tags_lem}

-- A cluster with a pod on the volume `/share/vol`, which can be frozen.
abbrev user_pod : Pod
user_pod = record {
  namespace = "default";
  name = "app";
  uid = "1";
  phase = "Running";
  node_name = "worker";
  claims = none ∷ some "data" ∷ [];
}

abbrev kube : Kube
kube = record {
  volumes = λ h. ok (
      record { name = "pv"; volume_handle = some "/share/vol"; claim = some ("default", "data") }
      ∷ []);
  pods = λ h namespace. ok (user_pod ∷ []);
  csi_node_pods = λ h namespace node_name. ok (user_pod ∷ []);
  fsfreeze = λ h op t. ok tt;
}

freeze_for_volume_handle-Thawed_example :
    Thawed kube []
      ((freeze_for_volume_handle kube "kube-system" true "/share/vol"
          >>= unfreeze kube "kube-system" true)
        []).1
freeze_for_volume_handle-Thawed_example =
    freeze_for_volume_handle-Thawed kube "kube-system" "/share/vol"

abbrev superblock : String
superblock = "dblocks = 100\nblocksize = 4096\n"

abbrev first : List String → String
first [] = ""
first (name ∷ args) = name

-- What a command prints; a tag cannot be set.
abbrev printed : List String → Result String
printed argv =
    if first argv == "losetup"
    then ok "/dev/loop0: []: (/share/vol)\n"
    else if first argv == "showmount"
    then ok "/export *\n/other *\n"
    else ok ""

abbrev machine : Machine
machine = record {
  start = λ h argv. ok tt;
  finish = λ h argv. some (printed argv);
  stat = λ h path. ok (record { is_dir = true; size = pos 500000 });
  is_mount_point = λ h path. some (ok false);
  mount = λ h c. some (ok tt);
  act = λ h c. ok tt;
  expired = λ h. false;
  is_not_exist = λ e. false;
  is_permission = λ e. false;
  exit_code_is_2 = λ e. false;
}

parse_filesystem_size-IsProduct_example :
    (c : ℕ) × (s : ℕ) × (parse_filesystem_geometry superblock "xfs" ≡ ok (pos c, pos s))
    × (pos 409600 ≡ pos (c * s))
    × (c * s ≤ 2 ^ 63 - 1)
unfolding parse_filesystem_size parse_filesystem_geometry read_lines split read_entry cut trim_space
    parse_int check_geometry lookup insert erase mul64
parse_filesystem_size-IsProduct_example =
    parse_filesystem_size-IsProduct superblock "xfs" (pos 409600) refl

set_metadata_tags_lem_example :
    (set_metadata_tags machine "details" "/share/vol" (("key", "value") ∷ []) []).0
    ≡ outcome
        (exec_command machine
          ("hs" ∷ "attribute" ∷ "set" ∷ "CSI_DETAILS" ∷ "details" ∷ "/share/vol" ∷ [])
          []).0
set_metadata_tags_lem_example =
    set_metadata_tags_lem machine "details" "/share/vol" (("key", "value") ∷ []) []

-- Two callers, one after the other.
one_mount_at_once_example : in_mount (begin_mount (begin_mount start)).attempts ≤ 1
one_mount_at_once_example =
    one_mount_at_once (begin_mount (begin_mount start))
      (after (after here (begins start)) (begins (begin_mount start)))
