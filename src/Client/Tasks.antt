-- ===== src/Client/Tasks.antt =====
-- Waiting for a task of the Anvil: WaitForTaskCompletionResult and CheckIfShareCreateTaskIsRunning of
-- pkg/client/hsclient.go.
use csi_plugin.Base.{
  ℕ, zero, suc, ◌-◌, ◌*◌, String, ◌<>◌, ◌==◌, Bool, false, not, ◌&&◌, ◌||◌, Option, none, some,
  List, [], ◌∷◌, ltb, if◌then◌else◌,
}
use csi_plugin.Base.Text.{base}
use csi_plugin.Client.{Http, Request, Task, expect, pause, pure, raise, ◌>>=◌, ◌>>◌}
use csi_plugin.Grpc.{Error, Result, ok, err, plain, value_or}

abbrev pub task_poll_milliseconds : ℕ
task_poll_milliseconds = 3600 * 1000

-- The wait before a look: 2 s in the first 30 s, and 4 s after them.
abbrev pub interval : ℕ → ℕ
interval passed = if ltb passed 30000 then 2000 else 4000

unfoldable pub is_terminal : String → Bool
is_terminal status =
    (status == "VALIDATION_FAILED")
    || ((status == "RESUMED")
        || ((status == "FAILED")
            || ((status == "HALTED") || ((status == "CANCELLED") || (status == "COMPLETED")))))

abbrev pub time_limit : Error
time_limit = plain "task %s, of type %s, failed to complete within time limit. Current status is %s"

-- `over b`: the task is over, and completed if `b`; `not_yet`: it goes on.
pub data Look : Type 0 where
  over : Bool → Look
  not_yet : Look

module _ (h : Http) where
  unfoldable pub passed_since : ℕ → Request ℕ
  passed_since start c = (ok (h.clock c.exchanges - start), c)

  -- A task that cannot be read is one that failed.
  unfoldable pub judge : Result Task → Look
  judge (ok task) = if is_terminal task.status then over (task.status == "COMPLETED") else not_yet
  judge (err e) = over false

  unfoldable pub look_at_task : String → Request Look
  look_at_task id = do r ← expect h 200 "GET" ("/tasks/" <> id); pure (judge (h.parse_task r.body))

  -- `none` is no fuel.
  abbrev pub after : Look → Request (Option Bool) → Request (Option Bool)
  after (over b) again = pure (some b)
  after not_yet again = again

  unfoldable pub wait_for_task : ℕ → ℕ → String → Request (Option Bool)
  wait_for_task zero start id = pure none
  wait_for_task (suc fuel) start id = do
    passed ← passed_since start
    if not (ltb passed task_poll_milliseconds) then raise time_limit else do
      pause h (interval passed)
      seen ← look_at_task id
      after seen (wait_for_task fuel start id)

  abbrev completed : Option Bool → Bool
  completed none = false
  completed (some b) = b

  -- WaitForTaskCompletion. One look takes two seconds at least.
  unfoldable pub wait_for_task_completion : String → Request Bool
  wait_for_task_completion location = do
    start ← passed_since 0
    ended ← wait_for_task 1801 start (base (h.url_path location))
    pure (completed ended)

  unfoldable pub any_executing : String → List Task → Bool
  any_executing share_name [] = false
  any_executing share_name (t ∷ tasks) =
      ((t.status == "EXECUTING") && (t.name == share_name)) || any_executing share_name tasks

  unfoldable pub check_if_share_create_task_is_running : String → Request Bool
  check_if_share_create_task_is_running share_name = do
    r ← expect h 200 "GET" "/tasks"
    pure (any_executing share_name (value_or [] (h.parse_tasks r.body)))
