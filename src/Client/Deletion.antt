-- ===== src/Client/Deletion.antt =====
-- What a deletion that is reported as done has seen: DeleteShare of pkg/client/hsclient.go.
use csi_plugin.Base.{String, ◌<>◌, ◌≡◌, true, none, some}
use csi_plugin.Base.Text.{contains}
use csi_plugin.Client.{Http, Client, Response}
use csi_plugin.Client.Delete.{running_task_id}
use csi_plugin.Client.Tasks.{wait_for_task_completion}
use csi_plugin.Grpc.{ok}

-- Why a deletion is reported as done: the share is gone, or deleted at once, or being removed, or the
-- Anvil accepted the deletion and named no task, or the task that the answer names was seen to complete:
-- by its Location where the deletion is accepted, or as the share-delete task in the text of a refusal.
pub data Deleted (h : Http) (r : Response) (c : Client) : Type 0 where
  gone : r.status_code ≡ 404 → Deleted h r c
  at_once : r.status_code ≡ 200 → Deleted h r c
  being_removed :
      r.status_code ≡ 400
      → contains r.body "Cannot remove a share with state REMOVED." ≡ true
      → Deleted h r c
  no_task : r.status_code ≡ 202 → r.location ≡ none → Deleted h r c
  task_completed :
      (location : String)
      → r.status_code ≡ 202
      → r.location ≡ some location
      → (wait_for_task_completion h location c).0 ≡ ok true
      → Deleted h r c
  running_completed :
      r.status_code ≡ 400
      → (wait_for_task_completion h ("/tasks/" <> running_task_id h r.body "share-delete") c).0
        ≡ ok true
      → Deleted h r c
