-- ===== src/Client/Delete.antt =====
-- DeleteShare, runningTaskID and waitForShareDelete of pkg/client/hsclient.go.
use csi_plugin.Base.{
  String, ◌<>◌, ◌==◌, not, ◌||◌, Option, none, some, List, [], ◌∷◌, eqb, if◌then◌else◌,
}
use csi_plugin.Base.Int.{ℤ, pos, ltb_ℤ}
use csi_plugin.Base.Text.{contains, format_int}
use csi_plugin.Client.{
  Http, Request, Response, do_request, unexpected, pure, raise, guard, on_result, attempt, ◌>>=◌,
}
use csi_plugin.Client.Tasks.{wait_for_task_completion}
use csi_plugin.Grpc.{Error, status, plain, aborted, unavailable}

-- The ID of the first match with the action.
unfoldable pub first_id : String → List (String × String) → String
first_id action [] = ""
first_id action ((a, id) ∷ matches) =
    let rest = first_id action matches in if a == action then id else rest

abbrev pub not_finished : Error
not_finished = status aborted "share-delete task %s has not finished: %v"

abbrev pub delete_failed : Error
delete_failed = plain "share-delete task failed"

abbrev pub busy : Error
busy = status unavailable "share %s is busy with another task: %s"

module _ (h : Http) where
  unfoldable pub running_task_id : String → String → String
  running_task_id body action = first_id action (h.running_tasks body)

  unfoldable pub wait_for_share_delete : String → Request (Unit {0})
  wait_for_share_delete location = do
    ended ← attempt (wait_for_task_completion h location)
    on_result ended (λ success. guard (not success) delete_failed) λ e. raise not_finished

  abbrev pub delete_path : String → ℤ → String
  delete_path name delay =
      "/shares/"
      <> h.path_escape name
      <> "?delete-path=true"
      <> (if ltb_ℤ delay (pos 0) then "" else "&delete-delay=" <> format_int delay)

  unfoldable pub refused_delete : String → Request (Unit {0})
  refused_delete body =
      if contains body "Cannot remove a share with state REMOVED."
      then pure tt
      else if not (running_task_id body "share-delete" == "")
      then wait_for_share_delete ("/tasks/" <> running_task_id body "share-delete")
      else if contains body "BUSY"
      then raise busy
      else raise unexpected

  unfoldable pub accepted_delete : Option String → Request (Unit {0})
  accepted_delete none = pure tt
  accepted_delete (some location) = wait_for_share_delete location

  unfoldable pub answered_delete : Response → Request (Unit {0})
  answered_delete r =
      if eqb r.status_code 400
      then refused_delete r.body
      else if eqb r.status_code 404 || eqb r.status_code 200
      then pure tt
      else if not (eqb r.status_code 202)
      then raise unexpected
      else accepted_delete r.location

  unfoldable pub delete_share : String → ℤ → Request (Unit {0})
  delete_share name delay = do
    r ← do_request h "DELETE" (delete_path name delay) ""
    answered_delete r
