-- ===== src/Tests.antt =====
-- A small Anvil and host for the tests: two shares, of which `share` holds files, a snapshot of each,
-- and every other request done.
pub mod Ids
pub mod Handlers
pub mod Mounts
pub mod Nested
pub mod Creation
pub mod Serving
pub mod Anvil
pub mod Operands
pub mod Machines
pub mod Service
use csi_plugin.Base.{String, ◌==◌, true, false, Option, none, some, List, [], ◌∷◌, if◌then◌else◌}
use csi_plugin.Base.Int.{pos}
use csi_plugin.Cache.{csi_cache}
use csi_plugin.Driver.{World, Driver, answered, other_fault, directory}
use csi_plugin.Grpc.{ok, err, plain}
use csi_plugin.Types.{ShareResponse, File, FileSnapshot}

abbrev pub share : String → ShareResponse
share name = record {
  name = name;
  export_path = "/export";
  extended_info = [];
  share_state = "PUBLISHED";
  size = pos 100;
  available = pos 40;
}

abbrev pub file : File
file = record { name = "vol"; path = "/share/vol"; size = pos 30; children = [] }

abbrev pub file_snapshot : FileSnapshot
file_snapshot = record { source_filename = "/share/vol"; time = "0" }

abbrev pub world : World
world = record {
  now = λ h. 0;
  lock = λ h e. true;
  get_share = λ h name. ok (if name == "gone" then none else some (share name));
  beside_error = λ e. none;
  get_file = λ h path. ok (some file);
  get_share_snapshots = λ h name. ok ("snap" ∷ []);
  get_file_snapshots = λ h path. ok (file_snapshot ∷ []);
  list_volumes = λ h. ok [];
  list_snapshots = λ h source. ok [];
  list_objective_names = λ h. ok [];
  get_cluster_available_capacity = λ h. ok (pos 1000);
  create_share = λ h name. ok tt;
  create_share_from_snapshot = λ h name. ok "/restored";
  delete_share = λ h name delay. ok tt;
  update_share_size = λ h name size. ok tt;
  set_objectives = λ h name. ok tt;
  snapshot_share = λ h name. ok "snap";
  snapshot_file = λ h path. ok "snap";
  delete_share_snapshot = λ h name snap. ok tt;
  delete_file_snapshot = λ h path snap. ok tt;
  restore_file_snapshot = λ h path snap. ok tt;
  probe_mount = λ h path. answered false;
  list_mounts = λ h. ok [];
  nfs_server_addresses = λ h. ok [];
  lookup_ip = λ host. none;
  parse_ip = λ text. none;
  loop_devices = λ h. ok "";
  unmount = λ h path. ok tt;
  contains_string = λ l s. false;
  stat = λ h path. answered true;
  host = λ h e. ok tt;
  file_size = λ h path. ok (pos 0);
  fault = λ h path. other_fault;
  clock = λ h. 0;
  cancelled = λ h. false;
  data_portal_mount_prefix = "";
  get_data_portals = λ h. ok [];
  get_portal_floating_ip = λ h. ok "10.0.0.1";
  nfs_exports = λ h address. ok ("/export" ∷ []);
  does_file_exist = λ h path. ok true;
  make_temp_dir = λ h. ok "/tmp/private";
  needs_growth = λ h path fs_type. ok false;
  attach_loop = λ h path read_only. ok "/dev/loop0";
  lstat = λ h path. answered true;
  kind = λ h path. directory;
  resolve_link = λ h path. ok path;
  not_exist_error = λ e. false;
  device_minor = λ h path. ok (pos 0);
  read_dir = λ h path. ok [];
  sha256 = λ text. text;
  file_system_type = λ h path. ok "xfs";
  answers_in_time = λ h path. true;
  stat_fs = λ h path. err (plain "statfs");
  block_device_size = λ h path. ok (pos 0);
  max_volumes_per_node = "";
  node_id = "node";
}

abbrev pub driver : Driver
driver = record {
  mount_refs = [];
  recently_created = [];
  cache = csi_cache;
  freezer = true;
  history = [];
}
