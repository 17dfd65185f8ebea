-- ===== src/Operator/Reconcile/Trace.antt =====
-- What the requests of a reconciliation must have behind them.
use csi_plugin.Base.{
  ℕ, ◌+◌, String, ◌==◌, ◌≡◌, ◌⊎◌, Bool, true, false, ◌&&◌, ◌||◌, Option, none, some, List, [], ◌∷◌,
  if◌then◌else◌,
}
use csi_plugin.Grpc.{Result, ok, err}
use csi_plugin.Operator.{
  Api, Cr, Condition, Live, Operand, Answer, found, missing, failed, Request, Requests, get_driver,
  get_object, create_object, patch_managed_fields, apply_object, delete_object, update_driver,
  update_status, owned_by, has_finalizer, workload, of_class,
}

abbrev pub same_object : Operand → Operand → Bool
same_object o p =
    (o.api_version == p.api_version)
    && ((o.kind == p.kind) && ((o.namespace == p.namespace) && (o.name == p.name)))

-- How many conditions of a status are true.
unfoldable pub count_true : List Condition → ℕ
count_true [] = 0
count_true (c ∷ l) = (if c.value == "True" then 1 else 0) + count_true l

abbrev answered_driver : Answer Cr → Option Cr
answered_driver (found cr) = some cr
answered_driver missing = none
answered_driver (failed e) = none

-- The resource after an update that may have failed.
abbrev pub updated : Result Cr → Option Cr → Option Cr
updated (ok cr) old = some cr
updated (err e) old = old

abbrev answered_finalizer : Answer Cr → Bool
answered_finalizer (found cr) = has_finalizer cr
answered_finalizer missing = false
answered_finalizer (failed e) = false

abbrev pub written : Result Cr → Cr → Bool → Bool
written (ok answer) cr old = has_finalizer cr
written (err e) cr old = old

abbrev pub is_owned : Answer Live → Cr → Bool
is_owned (found current) cr = owned_by current.owners cr
is_owned missing cr = false
is_owned (failed e) cr = false

module _ (w : Api) where
  -- The custom resource as the API server last answered it.
  unfoldable pub driver_of : Requests → Option Cr
  driver_of [] = none
  driver_of (get_driver ∷ h) = answered_driver (w.driver h)
  driver_of (update_driver cr ∷ h) = updated (w.update_driver h cr) (driver_of h)
  driver_of (_ ∷ h) = driver_of h

  -- Whether the resource has the finalizer: what was last read, or written by an update that succeeded.
  unfoldable pub is_protected : Requests → Bool
  is_protected [] = false
  is_protected (get_driver ∷ h) = answered_finalizer (w.driver h)
  is_protected (update_driver cr ∷ h) = written (w.update_driver h cr) cr (is_protected h)
  is_protected (_ ∷ h) = is_protected h

  -- The last answer for an object.
  unfoldable pub last_seen : Operand → Requests → Option (Answer Live)
  last_seen o [] = none
  last_seen o (get_object p ∷ h) =
      let before = last_seen o h in if same_object p o then some (w.object h p) else before
  last_seen o (_ ∷ h) = last_seen o h

  -- Whether some answer had the object as the resource's own.
  unfoldable pub seen_owned : Cr → Operand → Requests → Bool
  seen_owned cr o [] = false
  seen_owned cr o (get_object p ∷ h) =
      (same_object p o && is_owned (w.object h p) cr) || seen_owned cr o h
  seen_owned cr o (_ ∷ h) = seen_owned cr o h

-- Whether some answer had an object of the class as the resource's own.
unfoldable pub class_seen : Api → Cr → Bool → Requests → Bool
class_seen w cr b [] = false
class_seen w cr b (get_object o ∷ h) =
    (of_class b o.kind && is_owned (w.object h o) cr) || class_seen w cr b h
class_seen w cr b (_ ∷ h) = class_seen w cr b h

-- Whether the object was asked for.
unfoldable pub asked : Operand → Requests → Bool
asked o [] = false
asked o (get_object p ∷ h) = same_object p o || asked o h
asked o (_ ∷ h) = asked o h

abbrev pub AllAsked : List Operand → Requests → Type 0
AllAsked [] h = Unit
AllAsked (o ∷ l) h = (asked o h ≡ true) × AllAsked l h

abbrev pub WorkloadsAsked : List Operand → Requests → Type 0
WorkloadsAsked [] h = Unit
WorkloadsAsked (o ∷ l) h = ((workload o.kind ≡ false) ⊎ (asked o h ≡ true)) × WorkloadsAsked l h

-- A deletion of an object that is no workload comes after every workload of `objects` was asked for and
-- no answer had a workload as the resource's own, and an update of the resource after every one of
-- `objects` was asked for and no answer had any object as its own.
unfoldable pub Timely : Api → Cr → List Operand → Request → Requests → Type 0
Timely w cr objects (delete_object o uid) h =
    (workload o.kind ≡ true) ⊎ ((class_seen w cr true h ≡ false) × WorkloadsAsked objects h)
Timely w cr objects (update_driver c) h =
    (class_seen w cr true h ≡ false) × (class_seen w cr false h ≡ false) × AllAsked objects h
Timely w cr objects _ h = Unit

unfoldable pub InOrder : Api → Cr → List Operand → Requests → Type 0
InOrder w cr objects [] = Unit
InOrder w cr objects (r ∷ h) = Timely w cr objects r h × InOrder w cr objects h

abbrev pub Under : (Cr → Type 0) → Option Cr → Type 0
Under P none = ⊥
Under P (some cr) = P cr

abbrev pub WasMissing : Option (Answer Live) → Type 0
WasMissing none = ⊥
WasMissing (some missing) = Unit
WasMissing (some (found current)) = ⊥
WasMissing (some (failed e)) = ⊥

-- The last answer has an object with this UID, which is the resource's own and not yet being deleted.
abbrev pub WasOwned : Cr → String → Option (Answer Live) → Type 0
WasOwned cr uid none = ⊥
WasOwned cr uid (some missing) = ⊥
WasOwned cr uid (some (failed e)) = ⊥
WasOwned cr uid (some (found current)) =
    (owned_by current.owners cr ≡ true) × (current.deleting ≡ false) × (uid ≡ current.uid)

-- The last answer has an object with this UID.
abbrev pub WasFound : String → Option (Answer Live) → Type 0
WasFound uid none = ⊥
WasFound uid (some missing) = ⊥
WasFound uid (some (failed e)) = ⊥
WasFound uid (some (found current)) = uid ≡ current.uid

abbrev Returned : Result Live → String → Type 0
Returned (ok current) uid = uid ≡ current.uid
Returned (err e) uid = ⊥

-- The last request patched the object as the last answer had it, and returned one with this UID.
abbrev pub WasPatched : Api → Operand → String → Requests → Type 0
WasPatched w o uid [] = ⊥
WasPatched w o uid (patch_managed_fields current ∷ h) =
    (last_seen w o h ≡ some (found current)) × Returned (w.patch_managed_fields h current) uid
WasPatched w o uid (_ ∷ h) = ⊥

-- What a request that changes the cluster has behind it: an object is created only where the last answer
-- had none and applied only where an answer, not always the last, had it as the resource's own, with the
-- UID of the last answer or of what a patch just before returned; managed
-- fields are patched only of the last answer for such an object; all three only while the resource has
-- the finalizer; an object is deleted only for a resource that is being deleted, with the UID of the
-- last answer, which had it as the resource's own; the resource is updated only with the finalizer, or
-- while it is being deleted; and one condition of a status is true.
unfoldable pub Allowed : Api → Request → Requests → Type 0
Allowed w (create_object o) h = (is_protected w h ≡ true) × WasMissing (last_seen w o h)
Allowed w (apply_object o uid) h =
    (is_protected w h ≡ true)
    × Under (λ cr. seen_owned w cr o h ≡ true) (driver_of w h)
    × (WasFound uid (last_seen w o h) ⊎ WasPatched w o uid h)
Allowed w (delete_object o uid) h =
    Under (λ cr. (cr.deleting ≡ true) × WasOwned cr uid (last_seen w o h)) (driver_of w h)
Allowed w (patch_managed_fields current) h =
    (is_protected w h ≡ true)
    × ((o : Operand) × Under (λ cr. seen_owned w cr o h ≡ true) (driver_of w h)
        × (last_seen w o h ≡ some (found current)))
Allowed w (update_driver c) h =
    Under (λ cr. (has_finalizer c ≡ true) ⊎ (cr.deleting ≡ true)) (driver_of w h)
Allowed w (update_status s) h = count_true s.conditions ≡ 1
Allowed w _ h = Unit

-- Every request had behind it what it must have.
unfoldable pub Justified : Api → Requests → Type 0
Justified w [] = Unit
Justified w (r ∷ h) = Allowed w r h × Justified w h
