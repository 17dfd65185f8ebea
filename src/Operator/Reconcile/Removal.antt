-- ===== src/Operator/Reconcile/Removal.antt =====
-- Removing the operands of a resource that is being deleted, and releasing it, is justified.
use csi_plugin.Base.{String, ◌≡◌, refl, Bool, true, false, List, [], ◌∷◌, inl, inr, Bool-cases}
use csi_plugin.Base.Dict.{Dict}
use csi_plugin.Effect.{pure, ◌>>=◌}
use csi_plugin.Effect.Keeps.{
  Keeps, Leads, Leads-Keeps, Leads-if, Leads-bind, Keeps-bind_at, Keeps-pure, Keeps-lift,
  Keeps-bind,
}
use csi_plugin.Operator.{
  Api, Cr, Spec, Live, Operand, Answer, found, missing, failed, Requests, request, get_object,
  delete_object, update_driver, owned_by,
}
use csi_plugin.Operator.Reconcile.{
  only, remove, remove_found, remove_all, removing, release, remove_rendered, cleanup,
}
use csi_plugin.Operator.Reconcile.Trace.{
  driver_of, is_protected, last_seen, WasOwned, Allowed, Justified,
}
use csi_plugin.Operator.Reconcile.Invariant.{
  Inv, quiet-Inv, same_object_refl, condition-Keeps, unless_gone-Keeps,
}

module _ (w : Api) (images : Dict String) (namespace : String) (cr : Cr) (b : Bool) where
  module _ (deleting : cr.deleting ≡ true) where
    deleted-Inv :
        (o : Operand) (uid : String) (h : Requests)
        → WasOwned cr uid (last_seen w o h)
        → Inv w cr b h
        → Inv w cr b (delete_object o uid ∷ h)
    unfolding Justified Allowed driver_of is_protected
    deleted-Inv o uid h owned (j, e, f) = ((rw e (deleting, owned), j), e, f)

    -- The object was just read, and is the resource's own.
    remove-Inv :
        (o : Operand) (current : Live) (h : Requests)
        → w.object h o ≡ found current
        → owned_by current.owners cr ≡ true
        → Inv w cr b (get_object o ∷ h)
        → Inv w cr b (remove w images namespace o current (get_object o ∷ h)).1
    unfolding remove ◌>>=◌ last_seen
    remove-Inv o current h e own p = elim (Bool-cases current.deleting) [
      | inl gone ↦ rw gone p
      | inr kept ↦ rw kept (
          (unless_gone-Keeps {P = Inv w cr b} w images namespace
              (w.delete (get_object o ∷ h) o current.uid)).at
            (delete_object o current.uid ∷ get_object o ∷ h)
            (deleted-Inv o current.uid (get_object o ∷ h)
              (rw (same_object_refl o, e) (own, kept, refl)) p))
    ]

    remove_found-Inv :
        (o : Operand) (a : Answer Live) (h : Requests)
        → w.object h o ≡ a
        → Inv w cr b (get_object o ∷ h)
        → Inv w cr b (remove_found w images namespace cr o a (get_object o ∷ h)).1
    unfolding remove_found ◌>>=◌
    remove_found-Inv o missing h e p = p
    remove_found-Inv o (failed x) h e p = p
    remove_found-Inv o (found current) h e p = elim (Bool-cases (owned_by current.owners cr)) [
      | inr other ↦ rw other p
      | inl own ↦ rw own (
          Keeps-bind_at {P = Inv w cr b} (remove w images namespace o current) (λ _. pure true)
            (λ _. Keeps-pure true) (get_object o ∷ h) (remove-Inv o current h e own p))
    ]

    remove_all-Keeps : (l : List Operand) → Keeps (Inv w cr b) (remove_all w images namespace cr l)
    unfolding remove_all ◌>>=◌
    remove_all-Keeps [] = Keeps-pure false
    remove_all-Keeps (o ∷ l) = record {
      at = λ h p.
          Keeps-bind_at (remove_found w images namespace cr o (w.object h o)) _
            (λ pending. Keeps-bind _ _ (remove_all-Keeps l) λ rest. Keeps-pure _) (get_object o ∷ h)
            (remove_found-Inv o (w.object h o) h refl (quiet-Inv w cr b (get_object o) h tt p));
    }

    removing-Keeps : Keeps (Inv w cr b) (removing w images namespace cr)
    unfolding removing
    removing-Keeps = condition-Keeps w cr b images false true _ _ refl

    justified : (h : Requests) → Inv w cr b h → Justified w h
    justified h (j, e, f) = j

    written-Justified : (c : Cr) (h : Requests) → Inv w cr b h → Justified w (update_driver c ∷ h)
    unfolding Justified Allowed
    written-Justified c h (j, e, f) = (rw e (inr deleting), j)

    release-Leads : Leads (Inv w cr b) (Justified w) (release w images namespace cr)
    unfolding release
    release-Leads = record {
      at = λ h p.
          Keeps-bind_at {P = Justified w} (request (update_driver _) _) _ (λ _. Keeps-pure tt) h
            (written-Justified _ h p);
    }

    remove_rendered-Leads :
        (l : List Operand)
        → Leads (Inv w cr b) (Justified w) (remove_rendered w images namespace cr l)
    unfolding remove_rendered
    remove_rendered-Leads l =
        Leads-bind justified _ _ (remove_all-Keeps (only true l)) λ workloads_left.
          Leads-if justified workloads_left _ _ (Leads-Keeps justified _ removing-Keeps) (
            Leads-bind justified _ _ (remove_all-Keeps (only false l)) λ others_left.
              Leads-if justified others_left _ _ (Leads-Keeps justified _ removing-Keeps)
                release-Leads)

    pub cleanup-Leads :
        (spec : Spec) → Leads (Inv w cr b) (Justified w) (cleanup w images namespace cr spec)
    unfolding cleanup
    cleanup-Leads spec =
        Leads-if justified _ _ _ (Leads-Keeps justified _ (Keeps-pure tt))
          (Leads-bind justified _ _ (Keeps-lift _) remove_rendered-Leads)
