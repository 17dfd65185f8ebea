-- ===== src/Client/Shares.antt =====
-- Shares and files of pkg/client/hsclient.go: GetShare, GetFile, DoesFileExist, CreateShare,
-- CreateShareFromSnapshot, CloneShareSnapshot, SetObjectives, UpdateShareSize and ListVolumes.
use Prim.Native.String.{len}
use csi_plugin.Base.{
  String, ◌<>◌, ◌==◌, Bool, not, ◌||◌, Option, none, some, List, [], ◌∷◌, ltb, eqb, if◌then◌else◌,
  is_some,
}
use csi_plugin.Base.Int.{ℤ, pos, ltb_ℤ}
use csi_plugin.Base.Text.{base, clean, format_int, join_path, trim_prefix}
use csi_plugin.Client.{
  Http, Request, Response, do_request, expect, list_objectives, unexpected, pure, raise, lift,
  guard, attempt, map_error, ◌>>=◌, ◌>>◌,
}
use csi_plugin.Client.Tasks.{wait_for_task_completion, check_if_share_create_task_is_running}
use csi_plugin.Client.Delete.{delete_share, running_task_id}
use csi_plugin.Controller.Create.Plan.{check_objectives}
use csi_plugin.Grpc.{Error, Result, ok, status, plain, invalid_argument, aborted}
use csi_plugin.Params.{ShareExportOptions}
use csi_plugin.Types.{ShareResponse, File, VolumeResponse}

abbrev pub invalid_share_name_size : Error
invalid_share_name_size = status invalid_argument "share name cannot be longer than 80 characters"

abbrev share_not_found : Error
share_not_found = plain "share not found"

abbrev pub create_failed : Error
create_failed = plain "share failed to create"

module _ (h : Http) where
  -- The share that could be read is returned with the error of the parser.
  abbrev read_share : Response → Request (Option ShareResponse × Result (Unit {0}))
  read_share r = pure (some (h.parse_share r.body).0, (h.parse_share r.body).1)

  unfoldable pub get_share : String → Request (Option ShareResponse × Result (Unit {0}))
  get_share name = do
    r ← do_request h "GET" ("/shares/" <> h.path_escape name) ""
    if eqb r.status_code 404
        then pure (none, ok tt)
        else do guard (not (eqb r.status_code 200)) unexpected; read_share r

  -- The error of the parser is only logged.
  unfoldable pub get_file : String → Request (Option File)
  get_file path = do
    r ← do_request h "GET" ("/files?path=" <> h.path_escape path) ""
    if eqb r.status_code 500 || eqb r.status_code 404
        then pure none
        else do guard (not (eqb r.status_code 200)) unexpected; pure (some (h.parse_file r.body))

  unfoldable pub does_file_exist : String → Request Bool
  does_file_exist path = do file ← get_file path; pure (is_some file)

  -- getShareObjectives: the objectives are sent by the names that are checked here.
  unfoldable pub get_share_objectives : List String → Request (List String)
  get_share_objectives [] = pure []
  get_share_objectives (o ∷ objectives) = do
    known ← list_objectives h
    lift (check_objectives (o ∷ objectives) known)
    pure (o ∷ objectives)

  -- A create that failed has its share deleted.
  unfoldable pub give_up_share : String → Error → Request (Unit {0})
  give_up_share name e = do attempt (delete_share h name (pos 0)); raise e

  unfoldable pub accepted_create : String → Option String → Request (Unit {0})
  accepted_create name none = give_up_share name (plain "no share create task returned to monitor")
  accepted_create name (some location) = do
    success ← wait_for_task_completion h location
    if success then pure tt else give_up_share name create_failed

  -- A create that the Anvil has queued already is waited for.
  unfoldable pub wait_for_queued_create : String → Request (Unit {0})
  wait_for_queued_create id = do
    success ←
        map_error (wait_for_task_completion h ("/tasks/" <> id))
          λ e. status aborted "share-create task %s for %s has not finished: %v"
    guard (not success) create_failed

  unfoldable pub refused_create : String → String → Request (Unit {0})
  refused_create name body =
      if not (running_task_id h body "share-create" == "")
      then wait_for_queued_create (running_task_id h body "share-create")
      else do
        running ← check_if_share_create_task_is_running h name
        guard running (
            plain
              "share create task is already running for %s; retry snapshot clone after it completes")
        raise (plain "share create failed with status code %d: %s")

  unfoldable pub answered_create : String → Response → Request (Unit {0})
  answered_create name r =
      if eqb r.status_code 202
      then accepted_create name r.location
      else if eqb r.status_code 400
      then refused_create name r.body
      else raise unexpected

  unfoldable pub create_share :
      String → String → ℤ → List String → List ShareExportOptions → ℤ → String → Request (Unit {0})
  create_share name export_path size objectives export_options delay comment = do
    guard (ltb 80 (len name)) invalid_share_name_size
    share_objectives ← get_share_objectives objectives
    r ← do_request h "POST" "/shares" (
        h.encode_share (record {
          name = name;
          export_path = export_path;
          size = if ltb_ℤ (pos 0) size then size else pos 0;
          objectives = share_objectives;
          export_options = export_options;
          delete_delay = if ltb_ℤ delay (pos 0) then none else some (format_int delay);
          comment = comment;
        }))
    answered_create name r

  unfoldable pub accepted_clone : Option String → Request (Unit {0})
  accepted_clone none = raise (plain "no share snapshot clone task returned to monitor")
  accepted_clone (some location) = do
    success ← wait_for_task_completion h location
    guard (not success) (plain "failed to clone share snapshot")

  unfoldable pub clone_share_snapshot : String → String → String → Request (Unit {0})
  clone_share_snapshot source snapshot destination = do
    r ← expect h 202 "POST" (
        "/share-snapshots/clone-create/"
        <> h.path_escape source
        <> "?"
        <> h.encode_query (
            ("snapshot-name", snapshot)
            ∷ ("destination-path", destination)
            ∷ ("overwrite-destination", "true")
            ∷ []))
    accepted_clone r.location

  -- strings.TrimPrefix(s, "/") after "/", made clean.
  abbrev rooted : String → String
  rooted path = clean ("/" <> trim_prefix b'/' path)

  unfoldable pub create_share_from_snapshot :
      String → String → String → String → String → Request String
  create_share_from_snapshot name export_path source source_path snapshot_path = do
    guard (ltb 80 (len name)) invalid_share_name_size
    let snapshot = base snapshot_path
    guard ((snapshot == ".") || ((snapshot == "/") || (snapshot == "")))
        (plain "invalid source snapshot path %q")
    guard (source == "") (plain "source share name cannot be empty when cloning snapshot %s")
    guard (source_path == "") (plain "source share path cannot be empty when cloning snapshot %s")
    clone_share_snapshot source snapshot (rooted export_path)
    pure (join_path (rooted source_path) (trim_prefix b'/' (rooted export_path)))

  unfoldable pub set_objectives : String → String → List String → Request (Unit {0})
  set_objectives share path [] = pure tt
  set_objectives share path (o ∷ objectives) = do
    r ←
        do_request h "POST"
          ("/shares/"
            <> h.path_escape share
            <> "/objective-set?"
            <> h.encode_query (("path", path) ∷ ("objective-identifier", o) ∷ []))
          ""
    guard (not (eqb r.status_code 200)) (plain "failed to set objective: status code %d: %s")
    set_objectives share path objectives

  -- ListVolumes; of an answer that is not JSON, what could be read is the list.
  unfoldable pub list_volumes : Request (List VolumeResponse)
  list_volumes = do r ← expect h 200 "GET" "/base-storage-volumes"; pure (h.parse_volumes r.body)

  -- GetShareRawFields; `none` where the fields cannot be had, for whatever reason.
  unfoldable pub raw_share : String → Request String
  raw_share name = do
    r ← map_error (do_request h "GET" ("/shares/" <> h.path_escape name) "") λ e. share_not_found
    guard (not (eqb r.status_code 200)) share_not_found
    guard (not (h.is_object r.body)) share_not_found
    pure r.body

  unfoldable pub accepted_update : Option String → Request (Unit {0})
  accepted_update none = pure tt
  accepted_update (some location) = do
    success ← wait_for_task_completion h location
    guard (not success) (plain "Share failed to update")

  -- The name is put in the path as it is.
  unfoldable pub update_share_size : String → ℤ → Request (Unit {0})
  update_share_size name size = do
    fields ← raw_share name
    r ← do_request h "PUT" ("/shares/" <> name) (h.set_size fields size)
    guard (not (eqb r.status_code 202)) unexpected
    accepted_update r.location
