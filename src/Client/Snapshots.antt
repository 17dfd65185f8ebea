-- ===== src/Client/Snapshots.antt =====
-- Snapshots of shares and files of pkg/client/hsclient.go.
use csi_plugin.Base.{
  String, ◌<>◌, ◌==◌, true, not, ◌&&◌, ◌||◌, Option, none, some, List, [], ◌∷◌, ◌++◌, eqb,
  if◌then◌else◌,
}
use csi_plugin.Base.Text.{base, clean, contains, dir, join, split, trim, trim_space}
use csi_plugin.Client.{
  Http, Request, Response, do_request, expect, unexpected, pure, raise, lift, ◌>>=◌, ◌>>◌,
}
use csi_plugin.Client.Shares.{get_file}
use csi_plugin.Grpc.{Error, Result, ok, err, plain}
use csi_plugin.Types.{ShareResponse, File, FileChildren, FileSnapshot, SnapshotResponse}

-- The first "current" is the live view of the share.
unfoldable pub without_current : List String → List String
without_current [] = []
without_current (v ∷ names) =
    let rest = without_current names in if v == "current" then names else v ∷ rest

-- strings.SplitN(candidate, "-", 6) has five parts or more, and the first five of them joined.
abbrev pub first_five : List String → Option String
first_five (a ∷ b ∷ c ∷ d ∷ e ∷ rest) = some (join "-" (a ∷ b ∷ c ∷ d ∷ e ∷ []))
first_five _ = none

abbrev pub no_timestamp : Error
no_timestamp = plain "could not find a timestamp in file snapshot name %q"

-- A snapshot of a share, from the entry of its directory.
abbrev pub snapshot_of : ShareResponse → FileChildren → SnapshotResponse
snapshot_of share f = record {
  id = f.name;
  size = f.size;
  created = f.create_time;
  ready_to_use = true;
  source_volume_id = share.export_path;
}

unfoldable pub snapshots_in : ShareResponse → List FileChildren → List SnapshotResponse
snapshots_in share [] = []
snapshots_in share (f ∷ children) =
    let rest = snapshots_in share children in
    if f.name == "current" then rest else snapshot_of share f ∷ rest

unfoldable pub with_id : String → List SnapshotResponse → Option SnapshotResponse
with_id id [] = none
with_id id (s ∷ snapshots) = let rest = with_id id snapshots in if s.id == id then some s else rest

module _ (h : Http) where
  -- The quotes round the answer go, however many there are.
  unfoldable pub snapshot_share : String → Request String
  snapshot_share name = do
    r ← expect h 200 "POST" ("/share-snapshots/snapshot-create/" <> h.path_escape name)
    pure (trim b'"' (trim_space r.body))

  unfoldable pub get_share_snapshots : String → Request (List String)
  get_share_snapshots name = do
    r ← expect h 200 "GET" ("/share-snapshots/snapshot-list/" <> h.path_escape name)
    names ← lift (h.parse_names r.body)
    pure (without_current names)

  -- 404 or 200
  abbrev gone_or_done : Response → Request (Unit {0})
  gone_or_done r =
      if eqb r.status_code 404 || eqb r.status_code 200 then pure tt else raise unexpected

  unfoldable pub delete_share_snapshot : String → String → Request (Unit {0})
  delete_share_snapshot name snapshot = do
    r ←
        do_request h "POST"
          ("/share-snapshots/snapshot-delete/"
            <> h.path_escape name
            <> "/"
            <> h.path_escape snapshot)
          ""
    gone_or_done r

  unfoldable pub get_file_snapshots : String → Request (List FileSnapshot)
  get_file_snapshots path = do
    r ← expect h 200 "GET" ("/file-snapshots/list?filename-expression=" <> h.path_escape path)
    lift (h.parse_file_snapshots r.body)

  abbrev dated : String → Option String
  dated candidate = if h.is_date_time candidate then first_five (split b'-' candidate) else none

  abbrev or_else : Option String → Option String → Result String
  or_else (some t) other = ok t
  or_else none (some t) = ok t
  or_else none none = err no_timestamp

  -- `is_date_time` is the match of fileSnapshotTimestampPattern.
  unfoldable pub file_snapshot_timestamp : String → Result String
  file_snapshot_timestamp name = or_else (dated (base name)) (dated (base (dir name)))

  unfoldable pub delete_file_snapshot : String → String → Request (Unit {0})
  delete_file_snapshot path snapshot = do
    time ← lift (file_snapshot_timestamp snapshot)
    r ←
        do_request h "POST"
          ("/file-snapshots/delete?filename-expression="
            <> h.path_escape path
            <> "&date-time-expression="
            <> h.path_escape time)
          ""
    if eqb r.status_code 400 && contains r.body "No snapshots found for path"
        then pure tt
        else gone_or_done r

  abbrev first_name : List String → Result String
  first_name [] = err (plain "no file snapshots returned for path %s")
  first_name (name ∷ names) = ok name

  unfoldable pub snapshot_file : String → Request String
  snapshot_file path = do
    r ← expect h 200 "POST" ("/file-snapshots/create?filename-expression=" <> h.path_escape path)
    names ← lift (h.parse_names r.body)
    lift (first_name names)

  unfoldable pub restore_file_snap_to_destination : String → String → Request (Unit {0})
  restore_file_snap_to_destination snapshot path = do
    expect h 200 "POST" ("/file-snapshots/" <> h.path_escape snapshot <> "/" <> h.path_escape path)
    pure tt

  abbrev children_of : Option File → List FileChildren
  children_of none = []
  children_of (some file) = file.children

  abbrev add_found :
      String
      → List SnapshotResponse
      → Request (List SnapshotResponse)
      → Request (List SnapshotResponse)
  add_found id found others =
      if id == ""
      then (do rest ← others; pure (found ++ rest))
      else elim (with_id id found) [ some s ↦ pure (s ∷ []) | none ↦ others ]

  -- ListSnapshots, over the shares.
  unfoldable pub list_snapshots_of :
      String → String → List ShareResponse → Request (List SnapshotResponse)
  list_snapshots_of id volume_id [] = pure []
  list_snapshots_of id volume_id (share ∷ shares) =
      let others = list_snapshots_of id volume_id shares in
      if not (volume_id == "") && not (clean share.export_path == clean volume_id)
      then others
      else do
        dir_file ← get_file h (share.export_path <> "/.snapshot/")
        add_found id (snapshots_in share (children_of dir_file)) others

  unfoldable pub list_shares : Request (List ShareResponse)
  list_shares = do r ← expect h 200 "GET" "/shares"; pure (h.parse_shares r.body)

  unfoldable pub list_snapshots : String → String → Request (List SnapshotResponse)
  list_snapshots id volume_id = do shares ← list_shares; list_snapshots_of id volume_id shares
