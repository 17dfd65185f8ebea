-- ===== src/Operator/Reconcile/Passes.antt =====
-- One pass of cleanup over rendered objects: what it asks for, and what it reports.
use csi_plugin.Base.{
  String, ◌≡◌, ◌≢◌, ◌∙◌, ap, sym, refl, Bool, true, false, not, ◌||◌, List, [], ◌∷◌, Bool-cases,
  inl, inr, arith,
}
use mathlib.Core.Bool.{and-false, or-true}
use csi_plugin.Base.Dict.{Dict}
use csi_plugin.Effect.{pure, continue, ◌>>=◌, ◌>>◌}
use csi_plugin.Effect.Keeps.{
  Keeps, Keeps-pure, Keeps-raise, Keeps-attempt, Keeps-if, Keeps-bind, Keeps-Returns, Returns,
  Returns-bind,
}
use csi_plugin.Grpc.{Result, ok, err}
use csi_plugin.Operator.{
  Api, Op, Cr, Live, Operand, Answer, found, missing, failed, Request, Requests, get_driver,
  get_secret, get_object, create_object, patch_managed_fields, apply_object, list_pods,
  delete_object, update_driver, update_status, owned_by, workload, of_class,
}
use csi_plugin.Operator.Apply.{ask}
use csi_plugin.Operator.Reconcile.{only, remove, remove_found, remove_all}
use csi_plugin.Operator.Reconcile.Trace.{is_owned, class_seen, asked, AllAsked, WorkloadsAsked}
use csi_plugin.Operator.Reconcile.Invariant.{unless_gone-Keeps, same_object_refl}

module _ (w : Api) (images : Dict String) (namespace : String) (cr : Cr) where
  -- Reading and deleting the object keeps `P`.
  abbrev pub Kept : (Requests → Type 0) → Operand → Type 0
  Kept P o =
      ((h : Requests) → P h → P (get_object o ∷ h))
      × ((uid : String) (h : Requests) → P h → P (delete_object o uid ∷ h))

  module _ (P : Requests → Type 0) where
    remove-Keeps :
        (o : Operand) (current : Live) → Kept P o → Keeps P (remove w images namespace o current)
    unfolding remove
    remove-Keeps o current k = Keeps-if _ _ _ (Keeps-pure tt) (
        Keeps-bind _ _ (Keeps-attempt _ (record { at = λ h p. k.1 current.uid h p }))
          λ removed. unless_gone-Keeps w images namespace removed)

    remove_found-Keeps :
        (o : Operand) (a : Answer Live)
        → Kept P o
        → Keeps P (remove_found w images namespace cr o a)
    unfolding remove_found
    remove_found-Keeps o missing k = Keeps-pure false
    remove_found-Keeps o (failed e) k = Keeps-raise e
    remove_found-Keeps o (found current) k =
        Keeps-if _ _ _ (Keeps-pure false)
          (Keeps-bind _ _ (remove-Keeps o current k) λ _. Keeps-pure true)

    pub only-Keeps :
        (b : Bool) (l : List Operand)
        → ((o : Operand) → of_class b o.kind ≡ true → Kept P o)
        → Keeps P (remove_all w images namespace cr (only b l))
    unfolding remove_all only
    only-Keeps b [] k = Keeps-pure false
    only-Keeps b (o ∷ l) k = elim (Bool-cases (of_class b o.kind)) [
      | inr other ↦ rw other (only-Keeps b l k)
      | inl same ↦ rw same (
          Keeps-bind _ _ (record { at = λ h p. (k o same).0 h p })
            λ answer.
              Keeps-bind _ _ (remove_found-Keeps o answer (k o same))
                λ pending. Keeps-bind _ _ (only-Keeps b l k) λ rest. Keeps-pure _)
    ]

  -- What remains of a pass once its first object is known not to be the resource's.
  last_pending :
      (r : Result Bool) (t : Requests) → continue r (λ rest. pure (false || rest)) t ≡ (r, t)
  last_pending (ok rest) t = refl
  last_pending (err e) t = refl

  still_pending :
      (r : Result Bool) (t : Requests) → (continue r (λ rest. pure (true || rest)) t).0 ≢ ok false
  still_pending (ok rest) t e = cc
  still_pending (err x) t e = cc

  owned_pending :
      (m : Op (Unit {0})) (n : Op Bool) (t : Requests)
      → ((m >> pure true >>= λ pending. n >>= λ rest. pure (pending || rest)) t).0 ≢ ok false
  unfolding ◌>>=◌
  owned_pending m n t = after (m t).0 (m t).1
    where
      after :
          (r : Result (Unit {0})) (t' : Requests)
          → (continue
              (continue r (λ _. pure true) t').0
              (λ pending. n >>= λ rest. pure (pending || rest))
              (continue r (λ _. pure true) t').1).0
            ≢ ok false
      after (ok _) t' e = still_pending (n t').0 (n t').1 e
      after (err x) t' e = cc

  abbrev Unseen : Bool → Op Bool → Requests → Type 0
  Unseen b m h = (m h).0 ≡ ok false → class_seen w cr b (m h).1 ≡ class_seen w cr b h

  Unseen-rest :
      (b : Bool) (n : Op Bool) (h : Requests)
      → Unseen b n h
      → Unseen b (n >>= λ rest. pure (false || rest)) h
  unfolding ◌>>=◌
  Unseen-rest b n h ih e = ap (λ p. class_seen w cr b p.1) same ∙ ih (ap (λ p. p.0) (sym same) ∙ e)
    where
      same : continue (n h).0 (λ rest. pure (false || rest)) (n h).1 ≡ n h
      same = last_pending (n h).0 (n h).1

  Unseen-found :
      (b : Bool) (n : Op Bool) (o : Operand) (a : Answer Live) (h : Requests)
      → Unseen b n h
      → ((remove_found w images namespace cr o a >>= λ pending.
            n >>= λ rest. pure (pending || rest))
          h).0
        ≡ ok false
      → (is_owned a cr ≡ false)
        × (class_seen w cr b
              ((remove_found w images namespace cr o a >>= λ pending.
                  n >>= λ rest. pure (pending || rest))
                h).1
            ≡ class_seen w cr b h)
  unfolding remove_found ◌>>=◌
  Unseen-found b n o missing h ih e = (refl, Unseen-rest b n h ih e)
  Unseen-found b n o (failed x) h ih e = cc
  Unseen-found b n o (found current) h ih e = elim (Bool-cases (owned_by current.owners cr)) [
    | inr other ↦ (other, rw other (Unseen-rest b n h ih (rw other at e)))
    | inl own ↦ absurd (owned_pending (remove w images namespace o current) n h (rw own at e))
  ]

  -- A pass that reports no object of the resource has seen none.
  pub unseen :
      (b : Bool) (l : List Operand) (h : Requests) → Unseen b (remove_all w images namespace cr l) h
  unfolding remove_all ◌>>=◌ class_seen
  unseen b [] h e = refl
  unseen b (o ∷ l) h e =
      let passed =
        Unseen-found b (remove_all w images namespace cr l) o (w.object h o) (get_object o ∷ h)
          (unseen b l (get_object o ∷ h)) e in
      passed.1 ∙ rw (passed.0, and-false)

  -- Every object of a pass that succeeds was asked for.
  asked-Stays :
      (o : Operand) (r : Request) (h : Requests) → asked o h ≡ true → asked o (r ∷ h) ≡ true
  unfolding asked
  asked-Stays o (get_object p) h e = rw (e, or-true)
  asked-Stays o get_driver h e = e
  asked-Stays o (get_secret name) h e = e
  asked-Stays o (create_object p) h e = e
  asked-Stays o (patch_managed_fields current) h e = e
  asked-Stays o (apply_object p uid) h e = e
  asked-Stays o (delete_object p uid) h e = e
  asked-Stays o (update_driver c) h e = e
  asked-Stays o (update_status s) h e = e
  asked-Stays o (list_pods selector) h e = e

  abbrev Stays : (Requests → Type 0) → Type 0
  Stays P = (r : Request) (h : Requests) → P h → P (r ∷ h)

  AllAsked-Stays : (l : List Operand) → Stays (AllAsked l)
  AllAsked-Stays [] r h p = tt
  AllAsked-Stays (o ∷ l) r h (e, p) = (asked-Stays o r h e, AllAsked-Stays l r h p)

  pub WorkloadsAsked-Stays : (l : List Operand) → Stays (WorkloadsAsked l)
  WorkloadsAsked-Stays [] r h p = tt
  WorkloadsAsked-Stays (o ∷ l) r h (inl e, p) = (inl e, WorkloadsAsked-Stays l r h p)
  WorkloadsAsked-Stays (o ∷ l) r h (inr e, p) =
      (inr (asked-Stays o r h e), WorkloadsAsked-Stays l r h p)

  asked_for : (o : Operand) (h : Requests) → asked o (get_object o ∷ h) ≡ true
  unfolding asked
  asked_for o h = rw (same_object_refl o) refl

  pub all_asked :
      (l : List Operand) (P : Requests → Type 0)
      → Stays P
      → Returns P (λ _ h. P h × AllAsked l h) (λ _. Unit) (remove_all w images namespace cr l)
  unfolding remove_all
  all_asked [] P stays = record { at = λ h p. (p, tt) }
  all_asked (o ∷ l) P stays =
      Returns-bind (ask w o) _ (record { at = λ h p. (stays _ h p, asked_for o h) })
        λ answer.
          Returns-bind (remove_found w images namespace cr o answer) _
            (Keeps-Returns (λ h p. tt) _
              (remove_found-Keeps (λ h. P h × (asked o h ≡ true)) o answer
                (
                  λ h (p, e). (stays _ h p, asked-Stays o _ h e),
                  λ uid h (p, e). (stays _ h p, asked-Stays o _ h e),
                )))
            λ pending.
              Returns-bind (remove_all w images namespace cr l) _
                (all_asked l (λ h. P h × (asked o h ≡ true))
                  λ r h (p, e). (stays r h p, asked-Stays o r h e))
                λ rest. record { at = λ h (q, m). (q.0, (q.1, m)) }

  unmatched : (o : Operand) → of_class true o.kind ≡ false → workload o.kind ≡ false
  unmatched o h = ground arith

  class_of_other : (o : Operand) → workload o.kind ≡ false → of_class false o.kind ≡ true
  class_of_other o h = rw h refl

  -- The objects of a class, among them all.
  pub workloads_asked :
      (l : List Operand) (h : Requests) → AllAsked (only true l) h → WorkloadsAsked l h
  unfolding only
  workloads_asked [] h p = tt
  workloads_asked (o ∷ l) h p = elim (Bool-cases (of_class true o.kind)) [
    | inl same ↦ let q = rw same at p in (inr q.0, workloads_asked l h q.1)
    | inr other ↦ (inl (unmatched o other), workloads_asked l h (rw other at p))
  ]

  pub all_classes_asked :
      (l : List Operand) (h : Requests)
      → WorkloadsAsked l h
      → AllAsked (only false l) h
      → AllAsked l h
  unfolding only
  all_classes_asked [] h p q = tt
  all_classes_asked (o ∷ l) h (inr e, p) q = (
    e,
    all_classes_asked l h p (elim (Bool-cases (of_class false o.kind)) [
      | inl same ↦ (rw same at q).1
      | inr other ↦ rw other at q
    ]),
  )
  all_classes_asked (o ∷ l) h (inl e, p) q =
      let r = rw (class_of_other o e) at q in (r.0, all_classes_asked l h p r.1)

  pub class_workload : (kind : String) → of_class true kind ≡ true → workload kind ≡ true
  class_workload kind same = ground arith

  pub other_class :
      (b : Bool) (kind : String) → of_class b kind ≡ true → of_class (not b) kind ≡ false
  other_class b kind same = ground arith
