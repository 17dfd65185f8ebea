-- ===== src/Driver.antt =====
-- How the driver runs (CSIDriver of pkg/driver/driver.go): its own state, and what it asks of the
-- Hammerspace client and of the host. An operation may fail, and what it did before stays done. Each
-- call of the client or the host is recorded in the history, newest first; the World answers it from
-- the history, so that the same call may have another answer later. Contexts, deadlines, logs, traces
-- and metrics are not modelled. A lock that is not had within its 30 s is an answer of the World.
pub mod Keeps
pub mod Ends
pub mod Since
use csi_plugin.Base.{ℕ, ◌+◌, String, Bool, Option, none, some, List, [], ◌∷◌}
use csi_plugin.Base.Int.{ℤ}
use csi_plugin.Base.Dict.{Dict, lookup, insert}
use csi_plugin.Cache.{Cache, get, set_cache_data}
unfoldable pub use csi_plugin.Effect.{
  OpOn, pure, raise, lift, attempt, continue, ◌>>=◌, ◌>>◌, on_result, on_option, undo, on_failure,
  change, map_error, finally, guard,
}
use csi_plugin.Grpc.{Error, Result, ok, err, status, Code, aborted}
use csi_plugin.Types.{
  ShareResponse, File, FileSnapshot, VolumeResponse, SnapshotResponse, Snapshot, HsVolume,
}

-- A request to the Anvil or to the host.
pub data Event : Type 0 where
  lock_volume unlock_volume lock_snapshot unlock_snapshot : String → Event
  get_share get_file get_share_snapshots get_file_snapshots : String → Event
  list_volumes list_objective_names get_capacity : Event
  list_snapshots : String → Event
  create_share : String → ℤ → HsVolume → Event
  create_share_from_snapshot : HsVolume → String → Event
  delete_share : String → ℤ → Event
  update_share_size : String → ℤ → Event
  set_objectives : String → String → List String → Event
  snapshot_share snapshot_file : String → Event
  delete_share_snapshot delete_file_snapshot : String → String → Event
  restore_file_snapshot : String → String → Event
  freeze unfreeze : String → Event
  probe_mount : String → Event
  list_mounts list_loop_devices : Event
  nfs_server_addresses : Event
  mount_nfs : String → String → List String → Event
  unmount force_unmount : String → Event
  make_raw_file grow_raw_file : String → ℤ → Event
  make_raw_folder : String → Event
  stat_file : String → Event
  format_device : String → String → Event
  set_metadata_tags : String → Dict String → Event
  remove_all : String → Event
  lock_mount_slot unlock_mount_slot : Event
  get_data_portals get_portal_floating_ip : Event
  list_exports does_file_exist sleep : String → Event
  make_dir remove_file make_block_target : String → Event
  make_temp_dir : String → Event
  mount_file_system : String → String → String → List String → Event
  reconcile_file_system : String → String → String → Event
  check_growth : String → String → Event
  bind_mount : String → String → Event
  remount_read_only : String → Event
  attach_loop : String → Bool → Event
  cleanup_loop detach_loop device_minor : String → Event
  lstat resolve_link umount_command : String → Event
  read_dir get_file_system_type probe_volume open_block_device : String → Event
  expand_device : String → ℤ → Event
  expand_mounted_file_system : String → String → String → Event

-- A request that changes no share, file, objective or snapshot by the Anvil's management interface, and
-- that deletes no file of a mounted share. Making, growing and formatting a file there is such a request.
abbrev pub OffAnvil : Event → Type 0
OffAnvil (create_share name size volume) = ⊥
OffAnvil (create_share_from_snapshot volume path) = ⊥
OffAnvil (delete_share name delay) = ⊥
OffAnvil (update_share_size name size) = ⊥
OffAnvil (set_objectives share path objectives) = ⊥
OffAnvil (snapshot_share name) = ⊥
OffAnvil (snapshot_file path) = ⊥
OffAnvil (delete_share_snapshot name snapshot) = ⊥
OffAnvil (delete_file_snapshot path snapshot) = ⊥
OffAnvil (restore_file_snapshot snapshot path) = ⊥
OffAnvil (remove_all path) = ⊥
OffAnvil _ = Unit

abbrev pub History : Type 0
History = List Event

-- The answer of one mount-point probe, or of one look at a file (then the Boolean means nothing).
pub data Probe : Type 0 where
  answered : Bool → Probe
  not_exist : Probe
  failed : Probe

-- Why a look at a path failed, where the driver tells: EIO, ESTALE, or another error.
pub data Fault : Type 0 where
  io_error stale_handle other_fault : Fault

-- What a path is.
pub data Kind : Type 0 where
  symlink block_device directory other_kind : Kind

-- The numbers of statfs: a block size, which is an int64, and counts, which are uint64.
pub record StatFs : Type 0 where
  pub block_size : ℤ
  pub blocks : ℕ
  pub free_blocks : ℕ
  pub available_blocks : ℕ
  pub files : ℕ
  pub free_files : ℕ

-- A data portal; `address` is node.mgmtIpAddress.address.
pub record DataPortal : Type 0 where
  pub name : String
  pub address : String

-- An entry of the host's mount table, the one mounted last at the end.
pub record MountEntry : Type 0 where
  pub device : String
  pub path : String
  pub fs_type : String

-- What a cache entry of the driver holds.
pub data CacheData : Type 0 where
  number : ℤ → CacheData
  names : List String → CacheData

-- What the Anvil, the host and the packages that are not part of the repository answer.
-- `contains_string` is slice.ContainsString with strings.TrimSpace. `fault` is why a look at a path
-- failed, `host` answers the requests of the host that return nothing, and `clock` is in milliseconds.
-- `not_exist_error` is os.IsNotExist, `max_volumes_per_node` the environment variable, and `sha256` the
-- digest in hexadecimal.
pub record World : Type 0 where
  pub now : History → ℕ
  pub lock : History → Event → Bool
  pub get_share : History → String → Result (Option ShareResponse)
  pub beside_error : Error → Option ShareResponse
  pub get_file : History → String → Result (Option File)
  pub get_share_snapshots : History → String → Result (List String)
  pub get_file_snapshots : History → String → Result (List FileSnapshot)
  pub list_volumes : History → Result (List VolumeResponse)
  pub list_snapshots : History → String → Result (List SnapshotResponse)
  pub list_objective_names : History → Result (List String)
  pub get_cluster_available_capacity : History → Result ℤ
  pub create_share : History → String → Result (Unit {0})
  pub create_share_from_snapshot : History → String → Result String
  pub delete_share : History → String → ℤ → Result (Unit {0})
  pub update_share_size : History → String → ℤ → Result (Unit {0})
  pub set_objectives : History → String → Result (Unit {0})
  pub snapshot_share : History → String → Result String
  pub snapshot_file : History → String → Result String
  pub delete_share_snapshot : History → String → String → Result (Unit {0})
  pub delete_file_snapshot : History → String → String → Result (Unit {0})
  pub restore_file_snapshot : History → String → String → Result (Unit {0})
  pub probe_mount : History → String → Probe
  pub list_mounts : History → Result (List MountEntry)
  pub nfs_server_addresses : History → Result (List String)
  pub lookup_ip : String → Option (List String)
  pub parse_ip : String → Option String
  pub loop_devices : History → Result String
  pub unmount : History → String → Result (Unit {0})
  pub contains_string : List String → String → Bool
  pub stat : History → String → Probe
  pub host : History → Event → Result (Unit {0})
  pub file_size : History → String → Result ℤ
  pub fault : History → String → Fault
  pub clock : History → ℕ
  pub cancelled : History → Bool
  pub data_portal_mount_prefix : String
  pub get_data_portals : History → Result (List DataPortal)
  pub get_portal_floating_ip : History → Result String
  pub nfs_exports : History → String → Result (List String)
  pub does_file_exist : History → String → Result Bool
  pub make_temp_dir : History → Result String
  pub needs_growth : History → String → String → Result Bool
  pub attach_loop : History → String → Bool → Result String
  pub lstat : History → String → Probe
  pub kind : History → String → Kind
  pub resolve_link : History → String → Result String
  pub not_exist_error : Error → Bool
  pub device_minor : History → String → Result ℤ
  pub read_dir : History → String → Result (List String)
  pub sha256 : String → String
  pub file_system_type : History → String → Result String
  pub answers_in_time : History → String → Bool
  pub stat_fs : History → String → Result StatFs
  pub block_device_size : History → String → Result ℤ
  pub max_volumes_per_node : String
  pub node_id : String

-- The driver's own state. `freezer` is whether a Freezer was set up.
pub record Driver : Type 0 where
  pub mount_refs : Dict ℕ
  pub recently_created : Dict Snapshot
  pub cache : Cache CacheData
  pub freezer : Bool
  pub history : History

abbrev pub Op : Type 0 → Type 0
Op A = OpOn Driver A

module _ {A : Type 0} where
  -- One request: it is recorded, and answered from what went before.
  abbrev pub call : Event → (History → Result A) → Op A
  call e answer d = (answer d.history, record d { history = e ∷ d.history })

abbrev pub try_lock : Bool → Event → String → Op (Unit {0})
try_lock Bool.true e message d = (ok tt, record d { history = e ∷ d.history })
try_lock Bool.false e message d = (err (status aborted message), d)

module _ (w : World) {A : Type 0} where
  -- acquireMountSlot, and the release that is deferred; NewCSIDriver always sets up the slots.
  unfoldable pub with_mount_slot : Op A → Op A
  with_mount_slot m = do
    (λ d.
        try_lock (w.lock d.history lock_mount_slot) lock_mount_slot
          "timed out waiting for an NFS mount slot: %v" d)
    finally m (call unlock_mount_slot (λ _. ok tt))

  -- unlock, err := d.acquireVolumeLock(ctx, key); defer unlock(); then the rest of the function.
  unfoldable pub with_volume_lock : String → Op A → Op A
  with_volume_lock key m = do
    (λ d.
        try_lock (w.lock d.history (lock_volume key)) (lock_volume key)
          "could not acquire volume lock for %s: %v" d)
    finally m (call (unlock_volume key) (λ _. ok tt))

  unfoldable pub with_snapshot_lock : String → Op A → Op A
  with_snapshot_lock key m = do
    (λ d.
        try_lock (w.lock d.history (lock_snapshot key)) (lock_snapshot key)
          "could not acquire snapshot lock for %s: %v" d)
    finally m (call (unlock_snapshot key) (λ _. ok tt))

module _ (w : World) where
  -- A request of the host that returns nothing but its error.
  abbrev pub host : Event → Op (Unit {0})
  host e = call e (λ h. w.host h e)

  -- The same, where the error is only logged.
  abbrev pub host_logged : Event → Op (Unit {0})
  host_logged e = do attempt (host e); pure tt

  abbrev pub unmount_path : String → Op (Unit {0})
  unmount_path path = call (unmount path) (λ h. w.unmount h path)

  -- Why the look that was just had failed.
  abbrev pub last_fault : String → Op Fault
  last_fault path d = (ok (w.fault d.history path), d)

  abbrev pub probe_path : String → Op Probe
  probe_path path = call (probe_mount path) (λ h. ok (w.probe_mount h path))

  -- common.GetCacheData and common.SetCacheData.
  unfoldable pub cached : String → Op (Option CacheData)
  cached key d =
      let (found, cache) = get d.cache key (w.now d.history) in
      (ok found, record d { cache = cache })

  unfoldable pub remember : String → CacheData → ℕ → Op (Unit {0})
  remember key value seconds d =
      (ok tt, record d { cache = set_cache_data d.cache key value seconds (w.now d.history) })

-- The share that GetShare returns; where the answer could not be parsed, it returns what was read beside
-- the error.
abbrev pub returned_share : World → Result (Option ShareResponse) → Option ShareResponse
returned_share w (ok share) = share
returned_share w (err e) = w.beside_error e

-- recentlyCreatedSnapshots, under its own mutex.
unfoldable pub recent_snapshot : String → Op (Option Snapshot)
recent_snapshot name d = (ok (lookup name d.recently_created), d)

unfoldable pub record_snapshot : String → Snapshot → Op (Unit {0})
record_snapshot name s d = (ok tt, record d { recently_created = insert name s d.recently_created })
