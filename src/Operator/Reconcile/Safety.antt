-- ===== src/Operator/Reconcile/Safety.antt =====
-- Every request of a whole reconciliation is justified.
use csi_plugin.Base.{
  String, ◌≡◌, ◌∙◌, refl, Bool, true, false, List, [], ◌∷◌, ◌++◌, Bool-cases, inl, inr,
}
use mathlib.Core.Bool.{or-true}
use csi_plugin.Base.Dict.{Dict}
use csi_plugin.Effect.{attempt, continue, on_result, ◌>>=◌}
use csi_plugin.Effect.Keeps.{
  Keeps, Leads, Leads-Keeps, Leads-if, Leads-cases, Leads-bind, Leads-Result, Keeps-pure,
  Keeps-raise, Keeps-lift, Keeps-attempt, Keeps-if, Keeps-bind, Keeps-Result,
}
use csi_plugin.Grpc.{Error, Result, ok, err}
use csi_plugin.Operator.{
  Api, Op, Cr, Spec, Secret, Live, Operand, Answer, found, missing, failed, Requests, get_driver,
  update_driver, has_finalizer, finalizer, has_string,
}
use csi_plugin.Operator.Apply.{apply_all}
use csi_plugin.Operator.Conditions.{condition}
use csi_plugin.Operator.Parse.{parse_spec}
use csi_plugin.Operator.Workload.{workload_failure}
use csi_plugin.Operator.Reconcile.{
  workloads_last, found_conflict, any_conflict, protect, report_one, report, unreconciled, roll_out,
  with_credentials, with_secret, reconcile_spec, reconcile_found, reconcile,
}
use csi_plugin.Operator.Reconcile.Trace.{driver_of, is_protected, Allowed, Justified}
use csi_plugin.Operator.Reconcile.Invariant.{Inv, quiet-Keeps, ask-Keeps, condition-Keeps}
use csi_plugin.Operator.Reconcile.Operands.{apply_all-Keeps}
use csi_plugin.Operator.Reconcile.Removal.{cleanup-Leads}

finalizer_last : (l : List String) → has_string finalizer (l ++ finalizer ∷ []) ≡ true
unfolding has_string
finalizer_last [] = refl
finalizer_last (f ∷ l) = rw (finalizer_last l, or-true)

module _ (w : Api) (images : Dict String) (namespace : String) where
  module _ (cr : Cr) (b : Bool) where
    justified : (h : Requests) → Inv w cr b h → Justified w h
    justified h (j, e, f) = j

    found_conflict-Keeps :
        (a : Answer Live) (rest : Op Bool)
        → Keeps (Inv w cr b) rest
        → Keeps (Inv w cr b) (found_conflict w images namespace cr a rest)
    found_conflict-Keeps missing rest k = k
    found_conflict-Keeps (failed e) rest k = Keeps-raise e
    found_conflict-Keeps (found current) rest k = Keeps-if _ _ _ (Keeps-pure true) k

    any_conflict-Keeps :
        (l : List Operand) → Keeps (Inv w cr b) (any_conflict w images namespace cr l)
    unfolding any_conflict
    any_conflict-Keeps [] = Keeps-pure false
    any_conflict-Keeps (o ∷ l) =
        Keeps-bind _ _ (ask-Keeps w cr b o) λ a. found_conflict-Keeps a _ (any_conflict-Keeps l)

    failure-Keeps : (current : Live) → Keeps (Inv w cr b) (workload_failure w current)
    unfolding workload_failure
    failure-Keeps current = Keeps-bind _ _ (Keeps-lift _) λ selector.
        Keeps-if _ _ _ (Keeps-pure "")
          (Keeps-bind _ _ (quiet-Keeps w cr b _ _ tt) λ pods. Keeps-pure _)

    report_one-Keeps :
        (o : Operand) (rest pending : Op (Unit {0}))
        → Keeps (Inv w cr b) rest
        → Keeps (Inv w cr b) pending
        → Keeps (Inv w cr b) (report_one w images namespace cr o rest pending)
    unfolding report_one
    report_one-Keeps o rest pending k kp = Keeps-if _ _ _ k (
        Keeps-bind _ _ (ask-Keeps w cr b o) λ answer. Keeps-bind _ _ (Keeps-lift _) λ current.
          Keeps-if _ _ _ k (
            Keeps-bind _ _ (failure-Keeps current)
              λ failure. Keeps-if _ _ _ (condition-Keeps w cr b images false false _ _ refl) kp))

    report-Keeps :
        (ready : Bool) (l : List Operand)
        → Keeps (Inv w cr b) (report w images namespace cr ready l)
    unfolding report
    report-Keeps true [] = condition-Keeps w cr b images true false _ _ refl
    report-Keeps false [] = condition-Keeps w cr b images false true _ _ refl
    report-Keeps true (o ∷ l) = report_one-Keeps o _ _ (report-Keeps true l) (report-Keeps false l)
    report-Keeps false (o ∷ l) =
        report_one-Keeps o _ _ (report-Keeps false l) (report-Keeps false l)

    unreconciled-Keeps : (e : Error) → Keeps (Inv w cr b) (unreconciled w images namespace cr e)
    unreconciled-Keeps e =
        Keeps-bind _ _ (condition-Keeps w cr b images false false _ _ refl) λ _. Keeps-raise e

  -- What follows once the resource has the finalizer.
  protected-Justified :
      (cr : Cr) (desired : List Operand) (h : Requests)
      → Inv w cr true h
      → Justified w
          ((attempt (apply_all w cr (workloads_last desired)) >>= λ applied.
              on_result applied
                (λ _. report w images namespace cr true (workloads_last desired))
                (unreconciled w images namespace cr))
            h).1
  protected-Justified cr desired h p = justified cr true _ (
      (Keeps-bind _ _ (Keeps-attempt _ (apply_all-Keeps w cr true refl _)) λ applied.
          Keeps-Result applied _ _ (λ _. report-Keeps cr true true _)
            (unreconciled-Keeps cr true)).at
        h p)

  -- With the answer of the update of the resource, if there was one.
  abbrev Protected : Result Cr → Requests → Type 0
  Protected (ok cr) h = Inv w cr true h
  Protected (err e) h = Justified w h

  updated-Protected :
      (r : Result Cr) (b : Bool) (cr : Cr) (h : Requests)
      → w.update_driver h cr ≡ r
      → has_finalizer cr ≡ true
      → (old : Cr) → Inv w old b h
      → Protected r (update_driver cr ∷ h)
  unfolding Justified Allowed driver_of is_protected
  updated-Protected (ok answer) b cr h e f old (j, d, g) = ((rw d (inl f), j), rw e refl, rw e f)
  updated-Protected (err x) b cr h e f old (j, d, g) = (rw d (inl f), j)

  protect-Protected :
      (cr : Cr) (h : Requests)
      → Inv w cr (has_finalizer cr) h
      → Protected (protect w images namespace cr h).0 (protect w images namespace cr h).1
  unfolding protect has_finalizer has_string
  protect-Protected cr h p = elim (Bool-cases (has_finalizer cr)) [
    | inl has ↦ rw has (p.0, p.1, p.2 ∙ has)
    | inr lacks ↦ rw lacks (
        updated-Protected _ (has_finalizer cr)
          (record cr { finalizers = cr.finalizers ++ finalizer ∷ [] }) h refl
          (finalizer_last cr.finalizers) cr p)
  ]

  roll_out-Leads :
      (cr : Cr) (desired : List Operand)
      → Leads (Inv w cr (has_finalizer cr)) (Justified w) (roll_out w images namespace cr desired)
  unfolding roll_out ◌>>=◌
  roll_out-Leads cr desired = record {
    at = λ h p.
        rolled (protect w images namespace cr h).0 (protect w images namespace cr h).1
          (protect-Protected cr h p);
  }
    where
      rolled :
          (r : Result Cr) (t : Requests)
          → Protected r t
          → Justified w
              (continue r
                (λ cr'. attempt (apply_all w cr' (workloads_last desired)) >>= λ applied.
                  on_result applied
                    (λ _. report w images namespace cr' true (workloads_last desired))
                    (unreconciled w images namespace cr'))
                t).1
      rolled (ok cr') t q = protected-Justified cr' desired t q
      rolled (err e) t q = q

  module _ (cr : Cr) where
    Leading : Op (Unit {0}) → Type 0
    Leading m = Leads (Inv w cr (has_finalizer cr)) (Justified w) m

    condition-Leads :
        (reason message : String) → Leading (condition w images cr false false reason message)
    unfolding Leading
    condition-Leads reason message =
        Leads-Keeps (justified cr _) _
          (condition-Keeps w cr _ images false false reason message refl)

    with_credentials-Leads :
        (spec : Spec) (secret : Secret)
        → Leading (with_credentials w images namespace cr spec secret)
    unfolding Leading with_credentials
    with_credentials-Leads spec secret = Leads-bind (justified cr _) _ _ (Keeps-lift _) λ desired.
        Leads-bind (justified cr _) _ _ (any_conflict-Keeps cr _ desired) λ conflict.
          Leads-if (justified cr _) conflict _ _ (condition-Leads _ _) (roll_out-Leads cr desired)

    with_secret-Leads :
        (spec : Spec) (secret : Secret) → Leading (with_secret w images namespace cr spec secret)
    unfolding Leading with_secret
    with_secret-Leads spec secret =
        Leads-if (justified cr _) _ _ _ (with_credentials-Leads spec secret) (condition-Leads _ _)

    reconcile_spec-Leads : (spec : Spec) → Leading (reconcile_spec w images namespace cr spec)
    unfolding Leading reconcile_spec
    reconcile_spec-Leads spec =
        Leads-bind (justified cr _) _ _ (Keeps-attempt _ (quiet-Keeps w cr _ _ _ tt)) λ secret.
          Leads-Result (justified cr _) secret _ _ (with_secret-Leads spec) λ e. condition-Leads _ _

    decoded-Leads : Leading (reconcile_found w images namespace (found cr))
    unfolding Leading reconcile_found
    decoded-Leads =
        Leads-cases cr.deleting _ _
          (λ deleting. cleanup-Leads w images namespace cr _ deleting (parse_spec w cr).0)
          (λ kept.
            Leads-Result (justified cr _) (parse_spec w cr).1 _ _
              (λ _. reconcile_spec-Leads (parse_spec w cr).0) λ e. condition-Leads _ _)

  found-Justified :
      (a : Answer Cr)
      → w.driver [] ≡ a
      → Justified w (reconcile_found w images namespace a (get_driver ∷ [])).1
  unfolding reconcile_found Justified Allowed Leading driver_of is_protected
  found-Justified missing e = (tt, tt)
  found-Justified (failed x) e = (tt, tt)
  found-Justified (found cr) e =
      (decoded-Leads cr).at (get_driver ∷ []) ((tt, tt), rw e refl, rw e refl)

  -- Whatever the API server answers, every request of a reconciliation is justified: an object is
  -- created only where the last answer for it had none, and applied only where an answer, which need not
  -- be the last, had it as the resource's own, with the UID of the last answer or of what a patch just
  -- before returned; its managed fields are patched only as the last answer
  -- for such an object had it; all three only while the resource as last read or written has the
  -- finalizer. An object is deleted only for a resource that is being deleted, with the UID of the last
  -- answer, which had it as the resource's own and not being deleted; the resource is updated only with
  -- the finalizer, or while it is being deleted; and each status written has exactly one condition
  -- true. An object that was replaced by another's after the first answer may so be patched and applied.
  pub reconcile-Justified : Justified w (reconcile w images namespace []).1
  unfolding reconcile ◌>>=◌
  reconcile-Justified = found-Justified (w.driver []) refl
