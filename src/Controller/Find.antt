-- ===== src/Controller/Find.antt =====
-- ListSnapshots, findSnapshotByID and snapshotDirEntry of pkg/driver/controller.go. A listing that is
-- nil is an empty list.
pub mod Laws
use csi_plugin.Base.{
  String, ◌==◌, Bool, true, false, not, ◌&&◌, ◌||◌, Option, none, some, List, [], ◌∷◌,
  if◌then◌else◌,
}
use csi_plugin.Base.Int.{ℤ, pos, negsuc}
use csi_plugin.Base.Text.{base, dir, join_path}
use csi_plugin.Driver.{
  World, Op, pure, raise, call, attempt, guard, on_result, on_option, ◌>>=◌, ◌>>◌, get_file,
  get_share, get_share_snapshots, list_snapshots,
}
use csi_plugin.Grpc.{Error, Result, ok, err, status, text, invalid_argument, internal}
use csi_plugin.Types.{ShareResponse, File, FileChildren, Snapshot, SnapshotResponse}
use csi_plugin.VolumeId.{
  get_volume_name_from_path, is_file_backed_volume_id, get_snapshot_id_from_snapshot_name,
  get_snapshot_name_from_snapshot_id, get_snapshot_source_volume_id,
}

unfoldable pub child_named : String → List FileChildren → Option FileChildren
child_named name [] = none
child_named name (child ∷ children) =
    let rest = child_named name children in if child.name == name then some child else rest

-- The entry of the source, which has the ID and the source volume that were asked for.
abbrev pub entry : String → String → FileChildren → Snapshot
entry snapshot_id source child = record {
  snapshot_id = snapshot_id;
  source_volume_id = source;
  size_bytes = child.size;
  creation_time = child.create_time;
  ready_to_use = true;
}

-- What is reported of a snapshot whose directory entry cannot be read.
no_entry : FileChildren
no_entry = record { name = ""; size = pos 0; create_time = pos 0 }

child_or_none : Result (Option FileChildren) → FileChildren
unfolding no_entry
child_or_none (ok (some child)) = child
child_or_none (ok none) = no_entry
child_or_none (err e) = no_entry

abbrev is_negative : ℤ → Bool
is_negative (pos n) = false
is_negative (negsuc n) = true

-- The entry of a snapshot of the backend, which knows it by its own name.
abbrev pub listed : SnapshotResponse → Snapshot
listed s = record {
  snapshot_id = get_snapshot_id_from_snapshot_name s.id s.source_volume_id;
  source_volume_id = s.source_volume_id;
  size_bytes = s.size;
  creation_time = s.created;
  ready_to_use = s.ready_to_use;
}

-- Those of the source volume that was asked for, if one was.
unfoldable pub entries_of : String → List SnapshotResponse → List Snapshot
entries_of source [] = []
entries_of source (s ∷ l) =
    let rest = entries_of source l in
    if not (source == "") && not (s.source_volume_id == source) then rest else listed s ∷ rest

unfoldable pub entry_of : String → Option Snapshot → List Snapshot
entry_of source none = []
entry_of source (some s) = if (source == "") || (s.source_volume_id == source) then s ∷ [] else []

module _ (w : World) where
  unfoldable pub snapshot_dir_entry : String → String → Op (Option FileChildren)
  snapshot_dir_entry directory name = do
    parent ← call (get_file directory) (λ h. w.get_file h directory)
    on_option parent (pure none) λ p. pure (child_named name p.children)

  unfoldable pub find_file_snapshot : String → String → String → Op (Option Snapshot)
  find_file_snapshot snapshot_id source name = do
    found ← attempt (snapshot_dir_entry (dir name) (base name))
    on_result found
        (λ child. on_option child (pure none) λ c. pure (some (entry snapshot_id source c)))
        λ e. raise (status internal "could not look up snapshot %s: %v")

  unfoldable pub find_listed_share_snapshot :
      String → String → String → ShareResponse → List String → Op (Option Snapshot)
  unfolding child_or_none
  find_listed_share_snapshot snapshot_id source name share snapshots =
      if not (w.contains_string snapshots name) then pure none else do
        child ← attempt (snapshot_dir_entry (join_path share.export_path ".snapshot") name)
        pure (some (entry snapshot_id source (child_or_none child)))

  unfoldable pub find_snapshot_of_share :
      String → String → String → ShareResponse → Op (Option Snapshot)
  find_snapshot_of_share snapshot_id source name share = do
    let share_name = get_volume_name_from_path source
    snapshots ←
        attempt (call (get_share_snapshots share_name) (λ h. w.get_share_snapshots h share_name))
    on_result snapshots (λ l. find_listed_share_snapshot snapshot_id source name share l)
        λ e. raise (status internal "could not list snapshots of share %s: %v")

  unfoldable pub find_share_snapshot : String → String → String → Op (Option Snapshot)
  find_share_snapshot snapshot_id source name = do
    share ← attempt (
        call (get_share (get_volume_name_from_path source))
          (λ h. w.get_share h (get_volume_name_from_path source)))
    on_result share
        (λ found. on_option found (pure none) λ s. find_snapshot_of_share snapshot_id source name s)
        λ e. raise (status internal "could not look up source share %s: %v")

  unfoldable pub find_snapshot_by_id : String → Op (Option Snapshot)
  find_snapshot_by_id snapshot_id =
      on_result (get_snapshot_name_from_snapshot_id snapshot_id)
        (λ name.
          on_result (get_snapshot_source_volume_id snapshot_id)
            (λ source.
              if is_file_backed_volume_id source
              then find_file_snapshot snapshot_id source name
              else find_share_snapshot snapshot_id source name)
            (λ e. pure none))
        (λ e. pure none)

  unfoldable pub list_backend_snapshots : String → Op (List Snapshot)
  list_backend_snapshots source = do
    answer ← attempt (call (list_snapshots source) (λ h. w.list_snapshots h source))
    on_result answer (λ l. pure (entries_of source l)) λ e. raise (status internal (text e))

  unfoldable pub list_all_snapshots : ℤ → String → String → Op (List Snapshot)
  list_all_snapshots max_entries snapshot_id source = do
    guard (is_negative max_entries) (
        status invalid_argument
          "[ListSnapshots] Invalid max entries request %v, must not be negative ")
    if snapshot_id == ""
        then list_backend_snapshots source
        else do found ← find_snapshot_by_id snapshot_id; pure (entry_of source found)
