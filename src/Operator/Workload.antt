-- ===== src/Operator/Workload.antt =====
-- workloadReady and workloadFailure of operator/internal/operator/reconcile.go.
use csi_plugin.Base.{String, ◌==◌, Bool, true, false, not, ◌&&◌, ◌||◌, List, [], ◌∷◌, if◌then◌else◌}
use csi_plugin.Base.Dict.{Dict}
use csi_plugin.Base.Int.{pos, ltb_ℤ, eqb_ℤ}
use csi_plugin.Effect.{pure, lift, ◌>>=◌}
use csi_plugin.Operator.{Api, Op, Live, ContainerStatus, PodStatus, request, list_pods}

unfoldable pub workload_ready : Live → Bool
workload_ready o =
    if ltb_ℤ o.observed_generation o.generation
    then false
    else if o.kind == "StatefulSet"
    then ltb_ℤ (pos 0) o.replicas
      && (eqb_ℤ o.ready_replicas o.replicas
          && (eqb_ℤ o.updated_replicas o.replicas
              && (not (o.current_revision == "") && (o.current_revision == o.update_revision))))
    else ltb_ℤ (pos 0) o.desired_number_scheduled
      && (eqb_ℤ o.number_ready o.desired_number_scheduled
          && (eqb_ℤ o.updated_number_scheduled o.desired_number_scheduled
              && eqb_ℤ o.number_unavailable (pos 0)))

unfoldable pub stuck_waiting : String → Bool
stuck_waiting reason =
    (reason == "ImagePullBackOff")
    || ((reason == "InvalidImageName")
        || ((reason == "CreateContainerConfigError") || (reason == "CreateContainerError")))

unfoldable pub is_stuck : ContainerStatus → Bool
unfolding stuck_waiting
is_stuck c =
    stuck_waiting c.waiting_reason
    || ((c.waiting_reason == "CrashLoopBackOff") && not (ltb_ℤ c.restart_count (pos 3)))

unfoldable pub any_stuck : List ContainerStatus → Bool
any_stuck [] = false
any_stuck (c ∷ l) = is_stuck c || any_stuck l

abbrev pub failure_text : String
failure_text =
    "%s %s: pod %s container %s is %s (%d restarts); inspect the pod events and container logs"

-- The message for the first container that is stuck, or no text.
unfoldable pub first_failure : List PodStatus → String
first_failure [] = ""
first_failure (p ∷ l) =
    let rest = first_failure l in if any_stuck p.containers then failure_text else rest

abbrev pub is_empty : Dict String → Bool
is_empty [] = true
is_empty (e ∷ l) = false

module _ (w : Api) where
  unfoldable pub workload_failure : Live → Op String
  workload_failure o = do
    selector ← lift o.selector
    if is_empty selector then pure "" else do
      pods ← request (list_pods selector) (λ h. w.pods h selector)
      pure (first_failure pods)
