-- ===== src/Operator/Reconcile/Operands.antt =====
-- Creating an object, or bringing one up to date, is justified.
use csi_plugin.Base.{
  ℕ, zero, suc, ◌≡◌, ◌⊎◌, refl, Bool, true, some, List, [], ◌∷◌, inl, inr, Bool-cases,
}
use mathlib.Core.Bool.{or-true}
use csi_plugin.Effect.{lift, ◌>>=◌}
use csi_plugin.Effect.Keeps.{
  Keeps, Keeps-pure, Keeps-lift, Keeps-bind, Keeps-Returns, Outcome, Returns, Returns-bind,
  Returns-Option, Returns-settled, Returns-Leads, Returns-weaker, Leads-Returns,
}
use csi_plugin.Grpc.{Result, ok, err}
use csi_plugin.Operator.{
  Api, Cr, Live, Operand, Answer, found, missing, failed, Request, Requests, request, get_driver,
  get_secret, get_object, create_object, patch_managed_fields, apply_object, delete_object,
  update_driver, update_status, list_pods, owned_by,
}
use csi_plugin.Operator.Apply.{
  or_error, ask_again, upgrade_managed_fields, apply_to, apply, apply_all,
}
use csi_plugin.Operator.Reconcile.Trace.{
  driver_of, last_seen, is_protected, seen_owned, WasMissing, WasFound, WasPatched, Allowed,
  Justified,
}
use csi_plugin.Operator.Reconcile.Invariant.{Inv, IsQuiet, quiet-Inv, same_object_refl}

module _ (w : Api) (cr : Cr) (b : Bool) where
  -- What holds while an object that was seen to be the resource's own is brought up to date.
  abbrev Ours : Operand → Requests → Type 0
  Ours o h = Inv w cr b h × (seen_owned w cr o h ≡ true)

  quiet-Ours : (o : Operand) (r : Request) (h : Requests) → IsQuiet r → Ours o h → Ours o (r ∷ h)
  unfolding seen_owned
  quiet-Ours o (get_secret name) h q (p, e) = (quiet-Inv w cr b _ h q p, e)
  quiet-Ours o (get_object o') h q (p, e) = (quiet-Inv w cr b _ h q p, rw (e, or-true))
  quiet-Ours o (patch_managed_fields current) h q p = absurd q
  quiet-Ours o (list_pods selector) h q (p, e) = (quiet-Inv w cr b _ h q p, e)
  quiet-Ours o get_driver h q p = absurd q
  quiet-Ours o (create_object o') h q p = absurd q
  quiet-Ours o (apply_object o' uid) h q p = absurd q
  quiet-Ours o (delete_object o' uid) h q p = absurd q
  quiet-Ours o (update_driver c) h q p = absurd q
  quiet-Ours o (update_status s) h q p = absurd q

  module _ (o : Operand) where
    -- What it takes to patch the managed fields of the object.
    abbrev OursNow : Live → Requests → Type 0
    OursNow current h = Ours o h × (last_seen w o h ≡ some (found current))

    -- It was brought up to date, or was so already, as `current` says.
    abbrev Upgraded : Live → Requests → Type 0
    Upgraded current h =
        Ours o h × (WasFound current.uid (last_seen w o h) ⊎ WasPatched w o current.uid h)

    now-Upgraded : (current : Live) (h : Requests) → OursNow current h → Upgraded current h
    now-Upgraded current h p = (p.0, inl (rw p.1 refl))

    -- With the finalizer in place, an object may be made or brought up to date.
    module _ (protected : b ≡ true) where
      patched-Ours :
          (current : Live) (h : Requests)
          → OursNow current h
          → Ours o (patch_managed_fields current ∷ h)
      unfolding Justified Allowed driver_of is_protected seen_owned
      patched-Ours current h (((j, e, f), s), l) =
          ((((rw f protected, (o, rw e s, l)), j), e, f), s)

      -- One look at the object again.
      again-Returns : Returns (Ours o) OursNow (Ours o) (ask_again w o)
      unfolding last_seen
      again-Returns = record {
        at = λ h p. seen h (w.object h o) refl (quiet-Ours o (get_object o) h tt p);
      }
        where
          seen :
              (h : Requests) (a : Answer Live)
              → w.object h o ≡ a
              → Ours o (get_object o ∷ h)
              → Outcome OursNow (Ours o) (or_error a) (get_object o ∷ h)
          seen h (found current) e p = (p, rw (same_object_refl o, e) refl)
          seen h missing e p = p
          seen h (failed x) e p = p

      patch-Returns :
          (current : Live)
          → Returns
              (OursNow current)
              Upgraded
              (Ours o)
              (request (patch_managed_fields current) (λ h. w.patch_managed_fields h current))
      patch-Returns current = record {
        at = λ h p. answered h (w.patch_managed_fields h current) refl p;
      }
        where
          answered :
              (h : Requests) (r : Result Live)
              → w.patch_managed_fields h current ≡ r
              → OursNow current h
              → Outcome Upgraded (Ours o) r (patch_managed_fields current ∷ h)
          answered h (ok patched) e p = (patched-Ours current h p, inr (p.1, rw e refl))
          answered h (err x) e p = patched-Ours current h p

      planned-Returns :
          (current : Live)
          → Returns
              (OursNow current)
              (λ _. OursNow current)
              (Ours o)
              (lift (w.upgrade_patch current))
      planned-Returns current = Keeps-Returns (λ h p. p.0) _ (Keeps-lift _)

      upgrade-Returns :
          (left : ℕ) (current : Live)
          → Returns (OursNow current) Upgraded (Ours o) (upgrade_managed_fields w left o current)
      unfolding upgrade_managed_fields
      upgrade-Returns zero current = Returns-bind _ _ (planned-Returns current) λ patch.
          Returns-Option patch _ _ (record { at = now-Upgraded current }) λ p. patch-Returns current
      upgrade-Returns (suc left) current = Returns-bind _ _ (planned-Returns current) λ patch.
          Returns-Option patch _ _ (record { at = now-Upgraded current })
            λ p.
              Returns-bind {Q = λ upgraded h. Outcome Upgraded (Ours o) upgraded h} _ _
                (record { at = λ h q. (patch-Returns current).at h q })
                λ upgraded.
                  Returns-settled upgraded _
                    λ e. Returns-bind _ _ again-Returns λ again. upgrade-Returns left again

      applied-Inv :
          (current : Live) (h : Requests)
          → Upgraded current h
          → Inv w cr b (apply_object o current.uid ∷ h)
      unfolding Justified Allowed driver_of is_protected
      applied-Inv current h (((j, e, f), s), u) = (((rw f protected, rw e s, u), j), e, f)

      created-Inv :
          (h : Requests)
          → WasMissing (last_seen w o h)
          → Inv w cr b h
          → Inv w cr b (create_object o ∷ h)
      unfolding Justified Allowed driver_of is_protected
      created-Inv h m (j, e, f) = (((rw f protected, m), j), e, f)

      seen-Ours :
          (current : Live) (h : Requests)
          → w.object h o ≡ found current
          → owned_by current.owners cr ≡ true
          → Inv w cr b (get_object o ∷ h)
          → OursNow current (get_object o ∷ h)
      unfolding seen_owned last_seen
      seen-Ours current h a e p =
          ((p, rw (same_object_refl o, a, e)), rw (same_object_refl o, a) refl)

      missing-Inv :
          (h : Requests)
          → w.object h o ≡ missing
          → Inv w cr b (get_object o ∷ h)
          → Inv w cr b (create_object o ∷ get_object o ∷ h)
      unfolding last_seen
      missing-Inv h a p = created-Inv (get_object o ∷ h) (rw (same_object_refl o, a) tt) p

      -- The object is the resource's own.
      owned-Inv :
          (current : Live) (h : Requests)
          → OursNow current h
          → Inv w cr b
              ((upgrade_managed_fields w 2 o current >>= λ upgraded.
                  request (apply_object o upgraded.uid) (λ t. w.apply t o upgraded.uid))
                h).1
      owned-Inv current h p =
          (Leads-Returns _ (
              Returns-bind _ _ (Returns-weaker (λ t q. q.0) _ (upgrade-Returns 2 current))
                λ upgraded. Returns-Leads _ (record { at = λ t q. applied-Inv upgraded t q }))).at
            h p

      apply_to-Inv :
          (a : Answer Live) (h : Requests)
          → w.object h o ≡ a
          → Inv w cr b (get_object o ∷ h)
          → Inv w cr b (apply_to w cr o a (get_object o ∷ h)).1
      unfolding apply_to ◌>>=◌
      apply_to-Inv missing h e p = missing-Inv h e p
      apply_to-Inv (failed x) h e p = p
      apply_to-Inv (found current) h e p = elim (Bool-cases (owned_by current.owners cr)) [
        | inr other ↦ rw other p
        | inl own ↦ rw own (owned-Inv current (get_object o ∷ h) (seen-Ours current h e own p))
      ]

      apply-Keeps : Keeps (Inv w cr b) (apply w cr o)
      unfolding apply ◌>>=◌
      apply-Keeps = record {
        at = λ h p. apply_to-Inv (w.object h o) h refl (quiet-Inv w cr b (get_object o) h tt p);
      }

  pub apply_all-Keeps : b ≡ true → (l : List Operand) → Keeps (Inv w cr b) (apply_all w cr l)
  unfolding apply_all
  apply_all-Keeps protected [] = Keeps-pure tt
  apply_all-Keeps protected (o ∷ l) =
      Keeps-bind _ _ (apply-Keeps o protected) λ _. apply_all-Keeps protected l
