-- ===== src/Controller/Snapshots.antt =====
-- CreateSnapshot and DeleteSnapshot of pkg/driver/controller.go. The freezer (pkg/driver/freezer.go) is
-- two requests, which have no error. A snapshot's creation time is kept in whole seconds.
pub mod Create
pub mod Delete
pub mod Freeze
use Prim.Native.String.{len}
use csi_plugin.Base.{
  ℕ, ◌/◌, ◌^◌, String, ◌==◌, Bool, true, false, not, ◌&&◌, Option, none, some, ltb, if◌then◌else◌,
  is_some,
}
use csi_plugin.Base.Int.{pos}
use csi_plugin.Base.Text.{contains}
use csi_plugin.Driver.{
  World, Op, Driver, pure, raise, call, attempt, guard, on_result, on_option, finally,
  with_snapshot_lock, recent_snapshot, record_snapshot, ◌>>=◌, ◌>>◌, get_share, snapshot_share,
  snapshot_file, freeze, unfreeze, delete_share_snapshot, delete_file_snapshot,
}
use csi_plugin.Grpc.{
  Error, Result, ok, err, status, text, invalid_argument, internal, already_exists,
}
use csi_plugin.Types.{ShareResponse, Snapshot}
use csi_plugin.VolumeId.{
  get_volume_name_from_path, is_file_backed_volume_id, get_snapshot_id_from_snapshot_name,
  get_snapshot_name_from_snapshot_id, get_snapshot_source_volume_id,
}

abbrev pub max_name_length : ℕ
max_name_length = 128

abbrev pub other_volume : Error
other_volume = status already_exists "snapshot already exists for a different volume"

-- A plain error of the client becomes an Internal status.
abbrev pub or_internal : {A : Type 0} → Op A → Op A
or_internal m = do r ← attempt m; on_result r pure λ e. raise (status internal (text e))

abbrev pub new_snapshot : String → String → ℕ → Snapshot
new_snapshot source hs_snap_name now = record {
  snapshot_id = get_snapshot_id_from_snapshot_name hs_snap_name source;
  source_volume_id = source;
  size_bytes = pos 0;
  creation_time = pos (now / 10 ^ 9);
  ready_to_use = true;
}

module _ (w : World) where
  -- Whether the source is a file: by its ID, or because there is no such share.
  unfoldable pub file_backed_source : String → Op Bool
  file_backed_source source = if is_file_backed_volume_id source then pure true else do
    share ← or_internal (
        call (get_share (get_volume_name_from_path source))
          (λ h. w.get_share h (get_volume_name_from_path source)))
    pure (not (is_some share))

  unfoldable pub take_snapshot : Bool → String → Op String
  take_snapshot true source =
      or_internal (call (snapshot_file source) (λ h. w.snapshot_file h source))
  take_snapshot false source = or_internal (
      call (snapshot_share (get_volume_name_from_path source))
        (λ h. w.snapshot_share h (get_volume_name_from_path source)))

  unfoldable pub snapshot_now : String → String → String → Op Snapshot
  snapshot_now name source hs_snap_name d =
      let s = new_snapshot source hs_snap_name (w.now d.history) in
      (record_snapshot name s >> pure s) d

  unfoldable pub snapshot_and_record : String → String → Bool → Op Snapshot
  snapshot_and_record name source is_file = do
    hs_snap_name ← take_snapshot is_file source
    snapshot_now name source hs_snap_name

  unfoldable pub has_freezer : Op Bool
  has_freezer d = (ok d.freezer, d)

  -- The file system is thawed whatever happens in between.
  unfoldable pub while_frozen : Bool → String → Op Snapshot → Op Snapshot
  while_frozen false source m = m
  while_frozen true source m = do
    call (freeze source) (λ h. ok tt)
    finally m (call (unfreeze source) (λ h. ok tt))

  unfoldable pub create_new_snapshot : String → String → Op Snapshot
  create_new_snapshot name source = do
    is_file ← file_backed_source source
    available ← has_freezer
    while_frozen (available && is_file) source (snapshot_and_record name source is_file)

  unfoldable pub known_snapshot : String → Snapshot → Op Snapshot
  known_snapshot source s = do guard (not (s.source_volume_id == source)) other_volume; pure s

  -- `len` counts bytes, as Go's does.
  unfoldable pub create_snapshot : String → String → Op Snapshot
  create_snapshot name source = do
    guard (name == "") (status invalid_argument "snapshot ID cannot be empty")
    guard (ltb max_name_length (len name))
        (status invalid_argument "shapshot ID cannot be longer than %d characters")
    guard (source == "") (status invalid_argument "snapshot SourceVolumeId cannot be empty")
    with_snapshot_lock w name (do
      known ← recent_snapshot name
      on_option known (create_new_snapshot name source) (known_snapshot source))

  unfoldable pub delete_on_backend : Bool → String → String → Op (Result (Unit {0}))
  delete_on_backend true source name =
      attempt (call (delete_file_snapshot source name) (λ h. w.delete_file_snapshot h source name))
  delete_on_backend false source name = do
    let share_name = get_volume_name_from_path source
    attempt (
        call (delete_share_snapshot share_name name)
          (λ h. w.delete_share_snapshot h share_name name))

  -- A snapshot that the Anvil does not find is deleted.
  unfoldable pub settle_delete : Result (Unit {0}) → Op (Unit {0})
  settle_delete (ok _) = pure tt
  settle_delete (err e) =
      if contains (text e) "not found" then pure tt else raise (status internal (text e))

  unfoldable pub delete_named : String → String → Op (Unit {0})
  delete_named source name = do
    is_file ← file_backed_source source
    deleted ← delete_on_backend is_file source name
    settle_delete deleted

  unfoldable pub delete_snapshot : String → Op (Unit {0})
  delete_snapshot snapshot_id = do
    guard (snapshot_id == "") (status invalid_argument "snapshot ID cannot be empty")
    on_result (get_snapshot_name_from_snapshot_id snapshot_id)
        (λ name.
          on_result (get_snapshot_source_volume_id snapshot_id) (λ source. delete_named source name)
            (λ e. pure tt))
        (λ e. pure tt)
