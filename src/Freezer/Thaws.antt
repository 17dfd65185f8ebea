-- ===== src/Freezer/Thaws.antt =====
-- What is frozen for a snapshot is asked to be thawed after it.
use csi_plugin.Base.{
  String, ◌==◌, ◌≡◌, ◌⊎◌, inl, inr, refl, Bool, true, false, List, [], ◌∷◌, if◌then◌else◌,
}
use csi_plugin.Effect.{pure, attempt, continue, on_result, ◌>>=◌}
use csi_plugin.Effect.Keeps.{
  Keeps, Keeps-pure, Keeps-raise, Keeps-bind, Keeps-if, Keeps-attempt, Keeps-Option, Keeps-Result,
  Outcome, Returns, Returns-bind,
}
use csi_plugin.Grpc.{Result, ok, err}
use csi_plugin.Freezer.{
  Kube, FrozenTarget, Pod, Requests, fsfreeze, find_claim, named, running_pod,
  find_csi_node_pod_on_node, targets_of, find_mounts_for_volume_handle, freeze_targets,
  freeze_for_volume_handle, unfreeze_all, unfreeze,
}

abbrev Elem : FrozenTarget → List FrozenTarget → Type 0
Elem t [] = ⊥
Elem t (u ∷ l) = (t ≡ u) ⊎ Elem t l

-- A freeze that succeeded is of a target that is thawed.
abbrev Settled : Result (Unit {0}) → FrozenTarget → List FrozenTarget → Type 0
Settled (ok _) t thawed = Elem t thawed
Settled (err e) t thawed = Unit

module _ (k : Kube) where
  -- Every freeze that succeeded is followed by a request to thaw its target; `thawed` are the targets of
  -- the requests to thaw that come after those of the list, which has the newest first.
  unfoldable pub Thawed : List FrozenTarget → Requests → Type 0
  Thawed thawed [] = Unit
  Thawed thawed (fsfreeze op t ∷ h) =
      if op == "--freeze"
      then Settled (k.fsfreeze h op t) t thawed × Thawed thawed h
      else if op == "--unfreeze"
      then Thawed (t ∷ thawed) h
      else Thawed thawed h
  Thawed thawed (_ ∷ h) = Thawed thawed h

  -- It is enough to thaw what satisfies `S`.
  abbrev Safe : (FrozenTarget → Type 0) → Requests → Type 0
  Safe S h =
      (thawed : List FrozenTarget) → ((t : FrozenTarget) → S t → Elem t thawed) → Thawed thawed h

  abbrev Nothing : FrozenTarget → Type 0
  Nothing t = ⊥

  module _ (S : FrozenTarget → Type 0) (namespace : String) where
    pods-Keeps :
        (node_name : String) → Keeps (Safe S) (find_csi_node_pod_on_node k namespace node_name)
    unfolding find_csi_node_pod_on_node Thawed
    pods-Keeps node_name =
        Keeps-bind _ _ (record { at = λ h p. p })
          λ pods. Keeps-Option (running_pod pods) _ _ (Keeps-raise _) Keeps-pure

    targets_of-Keeps :
        (pv_name claim_name : String) (l : List Pod)
        → Keeps (Safe S) (targets_of k namespace pv_name claim_name l)
    unfolding targets_of
    targets_of-Keeps pv_name claim_name [] = Keeps-pure []
    targets_of-Keeps pv_name claim_name (p ∷ l) =
        Keeps-if _ _ _ (targets_of-Keeps pv_name claim_name l) (
          Keeps-bind _ _ (Keeps-attempt _ (pods-Keeps p.node_name)) λ found.
            Keeps-Result found _ _
              (λ csi_pod.
                Keeps-bind _ _ (targets_of-Keeps pv_name claim_name l) λ targets. Keeps-pure _)
              λ e. targets_of-Keeps pv_name claim_name l)

    find_mounts-Keeps :
        (volume_handle : String)
        → Keeps (Safe S) (find_mounts_for_volume_handle k namespace volume_handle)
    unfolding find_mounts_for_volume_handle Thawed
    find_mounts-Keeps volume_handle =
        Keeps-bind _ _ (record { at = λ h p. p })
          λ volumes.
            Keeps-Option (named (find_claim volume_handle volumes)) _ _ (Keeps-pure []) λ claim.
              Keeps-bind _ _ (record { at = λ h p. p })
                λ pods. targets_of-Keeps claim.0 claim.2 pods

  weaker :
      (S T : FrozenTarget → Type 0) (h : Requests)
      → ((t : FrozenTarget) → S t → T t)
      → Safe S h
      → Safe T h
  weaker S T h sub p thawed all = p thawed λ t s. all t (sub t s)

  -- What is to be thawed once the freeze of a target has that result.
  abbrev Also : FrozenTarget → Result (Unit {0}) → (FrozenTarget → Type 0) → FrozenTarget → Type 0
  Also t (ok _) S u = (u ≡ t) ⊎ S u
  Also t (err e) S u = S u

  frozen-Safe :
      (t : FrozenTarget) (S : FrozenTarget → Type 0) (h : Requests) (r : Result (Unit {0}))
      → k.fsfreeze h "--freeze" t ≡ r
      → Safe S h
      → Safe (Also t r S) (fsfreeze "--freeze" t ∷ h)
  unfolding Thawed
  frozen-Safe t S h (ok _) e p thawed all = (rw e (all t (inl refl)), p thawed λ u s. all u (inr s))
  frozen-Safe t S h (err x) e p thawed all = (rw e tt, p thawed all)

  abbrev With : (FrozenTarget → Type 0) → List FrozenTarget → FrozenTarget → Type 0
  With S frozen t = Elem t frozen ⊎ S t

  abbrev Never : Requests → Type 0
  Never h = ⊥

  module _ (namespace : String) where
    one_more :
        (t : FrozenTarget) (S : FrozenTarget → Type 0) (r : Result (Unit {0}))
        (rest : Result (List FrozenTarget)) (h : Requests)
        → Outcome (λ frozen. Safe (With (Also t r S) frozen)) Never rest h
        → Outcome
            (λ frozen. Safe (With S frozen))
            Never
            (continue rest (λ l. on_result r (λ _. pure (t ∷ l)) (λ e. pure l)) h).0
            (continue rest (λ l. on_result r (λ _. pure (t ∷ l)) (λ e. pure l)) h).1
    one_more t S (ok _) (ok l) h p =
        weaker _ _ h
          (λ u e. elim e [
            | inl old ↦ inl (inr old)
            | inr also ↦ elim also [ inl same ↦ inl (inl same) | inr s ↦ inr s ]
          ])
          p
    one_more t S (err x) (ok l) h p = p
    one_more t S r (err x) h p = absurd p

    freeze_targets-Safe :
        (l : List FrozenTarget) (S : FrozenTarget → Type 0)
        → Returns (Safe S) (λ frozen. Safe (With S frozen)) Never (freeze_targets k namespace l)
    unfolding freeze_targets ◌>>=◌
    freeze_targets-Safe [] S = record { at = λ h p. weaker S (With S []) h (λ t s. inr s) p }
    freeze_targets-Safe (t ∷ l) S = record {
      at = λ h p.
          one_more t S (k.fsfreeze h "--freeze" t)
            (freeze_targets k namespace l (fsfreeze "--freeze" t ∷ h)).0
            (freeze_targets k namespace l (fsfreeze "--freeze" t ∷ h)).1
            ((freeze_targets-Safe l (Also t (k.fsfreeze h "--freeze" t) S)).at
              (fsfreeze "--freeze" t ∷ h) (frozen-Safe t S h (k.fsfreeze h "--freeze" t) refl p));
    }

    found :
        (r : Result (List FrozenTarget))
        → Returns
            (Safe Nothing)
            (λ frozen. Safe (With Nothing frozen))
            Never
            (on_result r (freeze_targets k namespace) (λ e. pure []))
    found (ok l) = freeze_targets-Safe l Nothing
    found (err e) = record { at = λ h p. weaker Nothing (With Nothing []) h (λ t s. inr s) p }

    freeze-Safe :
        (present : Bool) (volume_handle : String)
        → Returns
            (Safe Nothing)
            (λ frozen. Safe (With Nothing frozen))
            Never
            (freeze_for_volume_handle k namespace present volume_handle)
    unfolding freeze_for_volume_handle
    freeze-Safe false volume_handle = record {
      at = λ h p. weaker Nothing (With Nothing []) h (λ t s. inr s) p;
    }
    freeze-Safe true volume_handle =
        Returns-bind (attempt (find_mounts_for_volume_handle k namespace volume_handle)) _
          (record { at = (find_mounts-Keeps Nothing namespace volume_handle).at }) found

    -- The requests to thaw a list come newest first, so its first target is thawed last.
    thaws : List FrozenTarget → Requests → Requests
    thaws [] h = h
    thaws (t ∷ l) h = fsfreeze "--unfreeze" t ∷ thaws l h

    unfreeze_all-thaws :
        (l : List FrozenTarget) (h : Requests) → unfreeze_all k namespace l h ≡ (ok tt, thaws l h)
    unfolding unfreeze_all thaws ◌>>=◌
    unfreeze_all-thaws [] h = refl
    unfreeze_all-thaws (t ∷ l) h = rw (unfreeze_all-thaws l h) refl

    thaws-Thawed :
        (l acc : List FrozenTarget) (h : Requests)
        → ((thawed : List FrozenTarget)
            → ((t : FrozenTarget) → Elem t l ⊎ Elem t acc → Elem t thawed)
            → Thawed thawed h)
        → Thawed acc (thaws l h)
    unfolding thaws Thawed
    thaws-Thawed [] acc h p = p acc λ t e. elim e [ inl never ↦ absurd never | inr old ↦ old ]
    thaws-Thawed (t ∷ l) acc h p = thaws-Thawed l (t ∷ acc) h λ thawed all. p thawed λ u e. elim e [
      | inl first ↦ elim first [ inl same ↦ all u (inr (inl same)) | inr later ↦ all u (inl later) ]
      | inr old ↦ all u (inr (inr old))
    ]

  module _ (namespace : String) where
    -- Whatever the API server answers, for each target whose file system FreezeForVolumeHandle
    -- froze, fsfreeze --unfreeze is asked for by the Unfreeze that it is passed to. Whether that
    -- succeeds is not stated.
    pub freeze_for_volume_handle-Thawed :
        (volume_handle : String)
        → Thawed []
            ((freeze_for_volume_handle k namespace true volume_handle >>= unfreeze k namespace true)
              []).1
    unfolding ◌>>=◌ unfreeze Thawed
    freeze_for_volume_handle-Thawed volume_handle =
        after (freeze_for_volume_handle k namespace true volume_handle []).0
          (freeze_for_volume_handle k namespace true volume_handle []).1
          ((freeze-Safe namespace true volume_handle).at [] λ thawed all. tt)
      where
        after :
            (r : Result (List FrozenTarget)) (h : Requests)
            → Outcome (λ frozen. Safe (With Nothing frozen)) Never r h
            → Thawed [] (continue r (unfreeze k namespace true) h).1
        after (ok l) h p = rw (unfreeze_all-thaws namespace l h) (
            thaws-Thawed namespace l [] h λ thawed all.
              p thawed λ t e. elim e [ inl here ↦ all t (inl here) | inr never ↦ absurd never ])
        after (err e) h p = absurd p
