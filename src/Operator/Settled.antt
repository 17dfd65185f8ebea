-- ===== src/Operator/Settled.antt =====
-- Reconciler.condition writes a status only when it differs.
use csi_plugin.Base.{String, eq_refl, ◌≡◌, refl, Bool, true, false, some, List, [], ◌∷◌, arith}
use csi_plugin.Base.Dict.{Dict}
use csi_plugin.Base.Int.{ℤ, eqb_ℤ}
use csi_plugin.Effect.{◌>>=◌}
use csi_plugin.Grpc.{ok}
use csi_plugin.Operator.{Api, Cr, Condition, Status, Requests}
use csi_plugin.Operator.Conditions.{
  transition_time, next_condition, next_status, same_status, same_condition, same_images,
  same_conditions, condition,
}

eqb_ℤ_refl : (n : ℤ) → eqb_ℤ n n ≡ true
eqb_ℤ_refl n = ground arith

same_images_refl : (m : Dict String) → same_images m m ≡ true
unfolding same_images
same_images_refl [] = refl
same_images_refl ((k, v) ∷ m) = rw (eq_refl k, eq_refl v, same_images_refl m)

same_condition_refl : (c : Condition) → same_condition c c ≡ true
unfolding same_condition
same_condition_refl c = rw (
  eq_refl c.name,
  eq_refl c.value,
  eq_refl c.reason,
  eq_refl c.message,
  eqb_ℤ_refl c.observed_generation,
  eq_refl c.last_transition_time,
)

same_conditions_refl : (l : List Condition) → same_conditions l l ≡ true
unfolding same_conditions
same_conditions_refl [] = refl
same_conditions_refl (c ∷ l) = rw (same_condition_refl c, same_conditions_refl l)

-- The same status is computed again at any later time: the times of transition stay.
next_status-again :
    (cr : Cr) (images : Dict String) (available progressing : Bool)
    (reason message now later : String)
    → next_status later
        (record cr {
          status = some (next_status now cr images available progressing reason message);
        })
        images
        available
        progressing
        reason
        message
      ≡ next_status now cr images available progressing reason message
unfolding next_status next_condition transition_time
next_status-again cr images true true reason message now later = refl
next_status-again cr images true false reason message now later = refl
next_status-again cr images false true reason message now later = refl
next_status-again cr images false false reason message now later = refl

same_status_refl : (s : Status) → same_status (some s) s ≡ true
unfolding same_status
same_status_refl s =
    rw (
      eqb_ℤ_refl s.observed_generation,
      same_conditions_refl s.conditions,
      same_images_refl s.images,
    )

-- Once `condition` has stored the status that it computes, the same conditions are not written again:
-- whatever the clock says then, it sends no request.
pub condition-again :
    (w : Api) (cr : Cr) (images : Dict String) (available progressing : Bool)
    (reason message now : String) (h : Requests)
    → condition w images
        (record cr {
          status = some (next_status now cr images available progressing reason message);
        })
        available
        progressing
        reason
        message
        h
      ≡ (ok tt, h)
unfolding condition ◌>>=◌
condition-again w cr images available progressing reason message now h =
    rw
      (
        next_status-again cr images available progressing reason message now (w.now h),
        same_status_refl (next_status now cr images available progressing reason message),
      )
      refl
