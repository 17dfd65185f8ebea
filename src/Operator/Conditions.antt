-- ===== src/Operator/Conditions.antt =====
-- Reconciler.condition of operator/internal/operator/reconcile.go.
use csi_plugin.Base.{
  String, ◌==◌, Bool, true, false, not, ◌&&◌, Option, none, some, List, [], ◌∷◌, if◌then◌else◌,
}
use csi_plugin.Base.Dict.{Dict}
use csi_plugin.Base.Int.{eqb_ℤ}
use csi_plugin.Effect.{pure, ◌>>=◌}
use csi_plugin.Grpc.{ok}
use csi_plugin.Operator.{Api, Op, Cr, Condition, Status, request, update_status}

abbrev pub bool_text : Bool → String
bool_text true = "True"
bool_text false = "False"

-- The time of the last old condition with the same name and value, or else `now`.
unfoldable pub transition_time : List Condition → String → String → String → String
transition_time [] name value now = now
transition_time (c ∷ l) name value now =
    transition_time l name value
      (if (c.name == name) && (c.value == value) then c.last_transition_time else now)

abbrev old_conditions : Option Status → List Condition
old_conditions none = []
old_conditions (some s) = s.conditions

unfoldable pub next_condition : String → Cr → String → String → String → Bool → Condition
next_condition now cr reason message name value = record {
  name = name;
  value = bool_text value;
  reason = reason;
  message = message;
  observed_generation = cr.generation;
  last_transition_time = transition_time (old_conditions cr.status) name (bool_text value) now;
}

unfoldable pub next_status : String → Cr → Dict String → Bool → Bool → String → String → Status
unfolding next_condition
next_status now cr images available progressing reason message = record {
  observed_generation = cr.generation;
  conditions =
      next_condition now cr reason message "Available" available
      ∷ next_condition now cr reason message "Progressing" progressing
      ∷ next_condition now cr reason message "Degraded" (not available && not progressing)
      ∷ [];
  images = images;
}

unfoldable pub same_condition : Condition → Condition → Bool
same_condition a b =
    (a.name == b.name)
    && ((a.value == b.value)
        && ((a.reason == b.reason)
            && ((a.message == b.message)
                && (eqb_ℤ a.observed_generation b.observed_generation
                    && (a.last_transition_time == b.last_transition_time)))))

unfoldable pub same_conditions : List Condition → List Condition → Bool
same_conditions [] [] = true
same_conditions [] (b ∷ m) = false
same_conditions (a ∷ l) [] = false
same_conditions (a ∷ l) (b ∷ m) = same_condition a b && same_conditions l m

unfoldable pub same_images : Dict String → Dict String → Bool
same_images [] [] = true
same_images [] (b ∷ m) = false
same_images (a ∷ l) [] = false
same_images ((j, v) ∷ l) ((k, u) ∷ m) = (j == k) && ((v == u) && same_images l m)

-- reflect.DeepEqual of two statuses; the images always come from the same map.
unfoldable pub same_status : Option Status → Status → Bool
unfolding same_condition same_conditions same_images
same_status none s = false
same_status (some a) b =
    eqb_ℤ a.observed_generation b.observed_generation
    && (same_conditions a.conditions b.conditions && same_images a.images b.images)

module _ (w : Api) (images : Dict String) where
  unfoldable pub condition : Cr → Bool → Bool → String → String → Op (Unit {0})
  condition cr available progressing reason message = do
    now ← λ h. (ok (w.now h), h)
    let status = next_status now cr images available progressing reason message
    if same_status cr.status status
        then pure tt
        else request (update_status status) (λ h. w.update_status h status)
