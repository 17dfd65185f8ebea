-- ===== src/Operator/Reconcile/Order.antt =====
-- The order in which cleanup takes the operands away.
use csi_plugin.Base.{
  String, ◌≡◌, ◌∙◌, refl, Bool, true, false, List, [], Bool-cases, inl, inr, if◌then◌else◌,
}
use csi_plugin.Base.Dict.{Dict}
use csi_plugin.Effect.{continue, ◌>>=◌}
use csi_plugin.Effect.Keeps.{Keeps, Keeps-bind_at, Keeps-pure, Keeps-if, Keeps-bind, Outcome}
use csi_plugin.Grpc.{Result, ok, err, value_or}
use csi_plugin.Operator.{
  Api, Op, Cr, Status, Spec, has_finalizer, request, Operand, Requests, update_driver,
  update_status, of_class,
}
use csi_plugin.Operator.Conditions.{condition}
use csi_plugin.Operator.Render.{render}
use csi_plugin.Operator.Reconcile.{
  namespace_of, only, remove_all, removing, release, remove_rendered, cleanup,
}
use csi_plugin.Operator.Reconcile.Trace.{class_seen, AllAsked, WorkloadsAsked, Timely, InOrder}
use csi_plugin.Operator.Reconcile.Passes.{
  Kept, only-Keeps, unseen, all_asked, WorkloadsAsked-Stays, workloads_asked, all_classes_asked,
  class_workload, other_class,
}

module _ (w : Api) (images : Dict String) (namespace : String) (cr : Cr) where
  module _ (objects : List Operand) where
    abbrev NoWorkloadSeen : Requests → Type 0
    NoWorkloadSeen h =
        InOrder w cr objects h × (class_seen w cr true h ≡ false) × WorkloadsAsked objects h

    -- In the first pass only workloads are read and deleted.
    abbrev OnlyWorkloads : Requests → Type 0
    OnlyWorkloads h = InOrder w cr objects h × (class_seen w cr false h ≡ false)

    first_pass :
        (o : Operand) → of_class true o.kind ≡ true → Kept w images namespace cr OnlyWorkloads o
    unfolding InOrder Timely class_seen
    first_pass o same = (
      λ h (i, s). ((tt, i), rw (other_class w images namespace cr true o.kind same, s)),
      λ uid h (i, s). ((inl (class_workload w images namespace cr o.kind same), i), s),
    )

    second_pass :
        (o : Operand) → of_class false o.kind ≡ true → Kept w images namespace cr NoWorkloadSeen o
    unfolding InOrder Timely class_seen
    second_pass o same = (
      λ h (i, s, a). (
        (tt, i),
        rw (other_class w images namespace cr false o.kind same, s),
        WorkloadsAsked-Stays w images namespace cr objects _ h a,
      ),
      λ uid h (i, s, a).
          ((inr (s, a), i), s, WorkloadsAsked-Stays w images namespace cr objects _ h a),
    )

    status-Keeps :
        (s : Status)
        → Keeps (InOrder w cr objects) (request (update_status s) (λ h. w.update_status h s))
    unfolding InOrder Timely
    status-Keeps s = record { at = λ h i. (tt, i) }

    removing-Keeps : Keeps (InOrder w cr objects) (removing w images namespace cr)
    unfolding removing condition
    removing-Keeps =
        Keeps-bind _ _ (record { at = λ h i. i })
          λ now. Keeps-if _ _ _ (Keeps-pure tt) (status-Keeps _)

    -- What a pass over a class has asked for, if it succeeds.
    abbrev Passed : Bool → Result Bool → Requests → Type 0
    Passed b r h = Outcome (λ _. AllAsked (only b objects)) (λ _. Unit) r h

    abbrev pass : Bool → Op Bool
    pass b = remove_all w images namespace cr (only b objects)

    pass-Passed : (b : Bool) (h : Requests) → Passed b (pass b h).0 (pass b h).1
    pass-Passed b h =
        either (pass b h).0 (pass b h).1
          ((all_asked w images namespace cr (only b objects) (λ _. Unit) (λ _ _ _. tt)).at h tt)
      where
        either :
            (r : Result Bool) (t : Requests)
            → Outcome (λ _ t. Unit × AllAsked (only b objects) t) (λ _. Unit) r t
            → Passed b r t
        either (ok left) t p = p.1
        either (err e) t p = tt

    released :
        (h : Requests)
        → NoWorkloadSeen h
        → class_seen w cr false h ≡ false
        → AllAsked (only false objects) h
        → InOrder w cr objects (release w images namespace cr h).1
    unfolding release InOrder Timely
    released h (i, s, a) t b =
        Keeps-bind_at {P = InOrder w cr objects} (request (update_driver _) _) _
          (λ _. Keeps-pure tt) h ((s, t, all_classes_asked w images namespace cr objects h a b), i)

    after_others :
        (r : Result Bool) (h : Requests)
        → NoWorkloadSeen h
        → (r ≡ ok false → class_seen w cr false h ≡ false)
        → Passed false r h
        → InOrder w cr objects
            (continue r
              (λ left.
                if left then removing w images namespace cr else release w images namespace cr)
              h).1
    after_others (ok true) h p s a = removing-Keeps.at h p.0
    after_others (ok false) h p s a = released h p (s refl) a
    after_others (err e) h p s a = p.0

    abbrev take_others : Op (Unit {0})
    take_others = do
      left ← pass false
      if left then removing w images namespace cr else release w images namespace cr

    after_workloads :
        (r : Result Bool) (h : Requests)
        → OnlyWorkloads h
        → (r ≡ ok false → class_seen w cr true h ≡ false)
        → Passed true r h
        → InOrder w cr objects
            (continue r (λ left. if left then removing w images namespace cr else take_others) h).1
    unfolding ◌>>=◌
    after_workloads (ok true) h p s a = removing-Keeps.at h p.0
    after_workloads (ok false) h p s a =
        after_others (pass false h).0 (pass false h).1
          ((only-Keeps w images namespace cr NoWorkloadSeen false objects second_pass).at h
            (p.0, s refl, workloads_asked w images namespace cr objects h a))
          (λ e. unseen w images namespace cr false (only false objects) h e ∙ p.1)
          (pass-Passed false h)
    after_workloads (err e) h p s a = p.0

    rendered : InOrder w cr objects (remove_rendered w images namespace cr objects []).1
    unfolding remove_rendered ◌>>=◌ InOrder class_seen
    rendered =
        after_workloads (pass true []).0 (pass true []).1
          ((only-Keeps w images namespace cr OnlyWorkloads true objects first_pass).at []
            (tt, refl))
          (unseen w images namespace cr true (only true objects) []) (pass-Passed true [])

  after_render :
      (r : Result (List Operand))
      → InOrder w cr (value_or [] r) (continue r (remove_rendered w images namespace cr) []).1
  unfolding InOrder
  after_render (ok l) = rendered l
  after_render (err e) = tt

  -- Of a resource that is being deleted, an object that is no workload is deleted only after every
  -- workload that the specification renders was asked for, and no answer had a workload as the
  -- resource's own; and the finalizer is taken off only after every rendered object was asked for, and
  -- no answer had any object as its own.
  pub cleanup-InOrder :
      (spec : Spec)
      → InOrder w cr
          (value_or [] (render w cr spec images "" (namespace_of namespace)))
          (cleanup w images namespace cr spec []).1
  unfolding cleanup ◌>>=◌ InOrder
  cleanup-InOrder spec = elim (Bool-cases (has_finalizer cr)) [
    | inl has ↦ rw has (after_render (render w cr spec images "" (namespace_of namespace)))
    | inr lacks ↦ rw lacks tt
  ]
