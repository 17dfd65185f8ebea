-- ===== src/Operator/Reconcile/Invariant.antt =====
-- What every step of a reconciliation keeps: the requests so far are justified.
use csi_plugin.Base.{String, eq_refl, ◌≡◌, refl, Bool, true, false, ◌&&◌, some, ◌∷◌}
use csi_plugin.Base.Dict.{Dict}
use csi_plugin.Effect.{◌>>=◌}
use csi_plugin.Effect.Keeps.{Keeps, Keeps-pure, Keeps-raise, Keeps-if}
use csi_plugin.Grpc.{Result, ok, err}
use csi_plugin.Operator.{
  Api, Cr, Status, Operand, Request, Requests, request, get_driver, get_secret, get_object,
  create_object, patch_managed_fields, apply_object, delete_object, update_driver, update_status,
  list_pods,
}
use csi_plugin.Operator.Apply.{ask}
use csi_plugin.Operator.Conditions.{condition, next_status, same_status}
use csi_plugin.Operator.Reconcile.{unless_gone}
use csi_plugin.Operator.Reconcile.Trace.{
  same_object, count_true, driver_of, is_protected, Allowed, Justified,
}

-- The trace so far is justified, `cr` is the resource as it was last answered, and `b` says whether it
-- has the finalizer.
abbrev pub Inv : Api → Cr → Bool → Requests → Type 0
Inv w cr b h = Justified w h × (driver_of w h ≡ some cr) × (is_protected w h ≡ b)

pub same_object_refl : (o : Operand) → same_object o o ≡ true
same_object_refl o = rw (eq_refl o.api_version, eq_refl o.kind, eq_refl o.namespace, eq_refl o.name)

pub unless_gone-Keeps :
    {P : Requests → Type 0} (w : Api) (images : Dict String) (namespace : String)
    (r : Result (Unit {0}))
    → Keeps P (unless_gone w images namespace r)
unless_gone-Keeps w images namespace (ok _) = Keeps-pure tt
unless_gone-Keeps w images namespace (err e) = Keeps-if _ _ _ (Keeps-pure tt) (Keeps-raise e)

-- A request that changes nothing.
abbrev pub IsQuiet : Request → Type 0
IsQuiet (get_secret name) = Unit
IsQuiet (get_object o) = Unit
IsQuiet (list_pods selector) = Unit
IsQuiet _ = ⊥

module _ (w : Api) (cr : Cr) (b : Bool) where
  pub quiet-Inv : (r : Request) (h : Requests) → IsQuiet r → Inv w cr b h → Inv w cr b (r ∷ h)
  unfolding Justified Allowed driver_of is_protected
  quiet-Inv (get_secret name) h q (j, e, f) = ((tt, j), e, f)
  quiet-Inv (get_object o) h q (j, e, f) = ((tt, j), e, f)
  quiet-Inv (patch_managed_fields current) h q p = absurd q
  quiet-Inv (list_pods selector) h q (j, e, f) = ((tt, j), e, f)
  quiet-Inv get_driver h q p = absurd q
  quiet-Inv (create_object o) h q p = absurd q
  quiet-Inv (apply_object o uid) h q p = absurd q
  quiet-Inv (delete_object o uid) h q p = absurd q
  quiet-Inv (update_driver c) h q p = absurd q
  quiet-Inv (update_status s) h q p = absurd q

  pub quiet-Keeps :
      {A : Type 0} (r : Request) (answer : Requests → Result A)
      → IsQuiet r
      → Keeps (Inv w cr b) (request r answer)
  quiet-Keeps r answer q = record { at = λ h p. quiet-Inv r h q p }

  status-Inv :
      (s : Status) (h : Requests)
      → count_true s.conditions ≡ 1
      → Inv w cr b h
      → Inv w cr b (update_status s ∷ h)
  unfolding Justified Allowed driver_of is_protected
  status-Inv s h one (j, e, f) = ((one, j), e, f)

  one_true :
      (now : String) (images : Dict String) (available progressing : Bool) (reason message : String)
      → (available && progressing) ≡ false
      → count_true (next_status now cr images available progressing reason message).conditions ≡ 1
  unfolding count_true next_status
  one_true now images true true reason message h = cc
  one_true now images true false reason message h = refl
  one_true now images false true reason message h = refl
  one_true now images false false reason message h = refl

  pub condition-Keeps :
      (images : Dict String) (available progressing : Bool) (reason message : String)
      → (available && progressing) ≡ false
      → Keeps (Inv w cr b) (condition w images cr available progressing reason message)
  unfolding condition ◌>>=◌
  condition-Keeps images available progressing reason message h = record {
    at = λ t p.
        let s = next_status (w.now t) cr images available progressing reason message in
        (Keeps-if (same_status cr.status s) _ _ (Keeps-pure tt) (record {
          at = λ t' p'.
              status-Inv s t' (one_true (w.now t) images available progressing reason message h) p';
        })).at
          t p;
  }

  pub ask-Keeps : (o : Operand) → Keeps (Inv w cr b) (ask w o)
  ask-Keeps o = quiet-Keeps _ _ tt
