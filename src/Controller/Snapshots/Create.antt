-- ===== src/Controller/Snapshots/Create.antt =====
-- CreateSnapshot, made once more, and for another volume.
use Prim.Native.String.{len}
use csi_plugin.Base.{
  String, ◌==◌, eq_iff, eq_refl, ◌≡◌, refl, ◌∙◌, Bool, true, false, Option, none, some, ◌∷◌, arith,
  ltb, Bool-cases, inl, inr, if◌then◌else◌,
}
use csi_plugin.Base.Dict.{lookup, lookup-insert}
use csi_plugin.Driver.{
  World, Driver, Op, on_option, finally, with_snapshot_lock, recent_snapshot, record_snapshot,
  ◌>>=◌, lock_snapshot, unlock_snapshot,
}
use csi_plugin.Driver.Ends.{Ends, AtEnd, Ends-bind, Ends-finally, Ends-with_snapshot_lock}
use mathlib.Core.Path.{subst}
use csi_plugin.Grpc.{Result, ok, err}
use csi_plugin.Types.{Snapshot}
use csi_plugin.Controller.Snapshots.{
  max_name_length, snapshot_now, snapshot_and_record, while_frozen, create_new_snapshot,
  known_snapshot, create_snapshot, other_volume, new_snapshot,
}

-- The snapshot that is recorded under the name, of the volume.
abbrev pub Recorded : String → String → Snapshot → Driver → Type 0
Recorded name source s d = (lookup name d.recently_created ≡ some s) × (s.source_volume_id ≡ source)

module _ (w : World) (name source : String) where
  snapshot_now-Recorded :
      (hs : String) → Ends (Recorded name source) (snapshot_now w name source hs)
  unfolding snapshot_now record_snapshot ◌>>=◌
  snapshot_now-Recorded hs = record {
    at = λ d. (
      lookup-insert name name (new_snapshot source hs (w.now d.history)) d.recently_created
          ∙ rw (eq_refl name) refl,
      refl,
    );
  }

  snapshot_and_record-Recorded :
      (is_file : Bool) → Ends (Recorded name source) (snapshot_and_record w name source is_file)
  unfolding snapshot_and_record
  snapshot_and_record-Recorded is_file = Ends-bind _ _ snapshot_now-Recorded

  while_frozen-Recorded :
      (b : Bool) (m : Op Snapshot)
      → Ends (Recorded name source) m
      → Ends (Recorded name source) (while_frozen w b source m)
  unfolding while_frozen
  while_frozen-Recorded false m k = k
  while_frozen-Recorded true m k = Ends-bind _ _ λ _. Ends-finally m _ k λ s d h. h

  create_new-Recorded : Ends (Recorded name source) (create_new_snapshot w name source)
  unfolding create_new_snapshot
  create_new-Recorded = Ends-bind _ _ λ is_file.
      Ends-bind _ _ λ available. while_frozen-Recorded _ _ (snapshot_and_record-Recorded is_file)

  known-Recorded :
      (s : Snapshot) (d : Driver)
      → lookup name d.recently_created ≡ some s
      → AtEnd (Recorded name source) (known_snapshot w source s d)
  unfolding known_snapshot ◌>>=◌
  known-Recorded s d h = elim (Bool-cases (s.source_volume_id == source)) [
    | inl e ↦ rw e (h, ground (arith, eq_iff s.source_volume_id source))
    | inr e ↦ rw e tt
  ]

  found-Recorded :
      (o : Option Snapshot) (d : Driver)
      → lookup name d.recently_created ≡ o
      → AtEnd
          (Recorded name source)
          (on_option o (create_new_snapshot w name source) (known_snapshot w source) d)
  found-Recorded none d h = create_new-Recorded.at d
  found-Recorded (some s) d h = known-Recorded s d h

  lookup-Recorded : Ends (Recorded name source) (
      recent_snapshot name >>= λ known.
      on_option known (create_new_snapshot w name source) (known_snapshot w source))
  unfolding recent_snapshot ◌>>=◌
  lookup-Recorded = record { at = λ d. found-Recorded (lookup name d.recently_created) d refl }

  -- Where CreateSnapshot succeeds, its answer is a snapshot of the volume, and is recorded under its
  -- name.
  create_snapshot-Recorded : Ends (Recorded name source) (create_snapshot w name source)
  unfolding create_snapshot
  create_snapshot-Recorded = Ends-bind _ _ λ _.
      Ends-bind _ _
        λ _. Ends-bind _ _ λ _. Ends-with_snapshot_lock w name _ lookup-Recorded λ s e d h. h

  after-Recorded :
      (r : Result Snapshot × Driver) (s : Snapshot) (d : Driver)
      → AtEnd (Recorded name source) r
      → r ≡ (ok s, d)
      → Recorded name source s d
  after-Recorded r s d h e = subst (AtEnd (Recorded name source)) e h

  -- The driver after the lock on the snapshot name was had and given back.
  abbrev pub locked_once : Driver → Driver
  locked_once d = record d { history = unlock_snapshot name ∷ lock_snapshot name ∷ d.history }

  abbrev pub Accepted : Type 0
  Accepted =
      ((name == "") ≡ false) × (ltb max_name_length (len name) ≡ false) × ((source == "") ≡ false)

  known_again :
      (s : Snapshot) (d : Driver)
      → Accepted
      → w.lock d.history (lock_snapshot name) ≡ true
      → lookup name d.recently_created ≡ some s
      → create_snapshot w name source d
        ≡ ((if s.source_volume_id == source then ok s else err other_volume), locked_once d)
  unfolding create_snapshot with_snapshot_lock recent_snapshot known_snapshot finally ◌>>=◌
  known_again s d (hn, hl, hs) hk hr = rw hn (
      rw hl (
        rw hs (
          rw hk (
            rw hr (elim (Bool-cases (s.source_volume_id == source)) [
              | inl e ↦ rw e refl
              | inr e ↦ rw e refl
            ])))))

  -- CreateSnapshot is idempotent: made again with the same name and volume after it has succeeded, it
  -- gives the same snapshot, and asks the Anvil for nothing, if its arguments are accepted and it has
  -- the lock on the name.
  pub create_snapshot-again :
      (d d' : Driver) (s : Snapshot)
      → Accepted
      → create_snapshot w name source d ≡ (ok s, d')
      → w.lock d'.history (lock_snapshot name) ≡ true
      → create_snapshot w name source d' ≡ (ok s, locked_once d')
  create_snapshot-again d d' s ha h hk =
      let (found, same) = after-Recorded _ s d' (create_snapshot-Recorded.at d) h in
      known_again s d' ha hk found ∙ rw same (rw (eq_refl source) refl)

module _ (w : World) (name source other : String) where
  -- A name that was given to a snapshot of one volume is refused for another volume, with AlreadyExists,
  -- and nothing is asked of the Anvil, if the arguments are accepted and the lock is had.
  create_snapshot-other_volume :
      (d d' : Driver) (s : Snapshot)
      → Accepted w name other
      → (source == other) ≡ false
      → create_snapshot w name source d ≡ (ok s, d')
      → w.lock d'.history (lock_snapshot name) ≡ true
      → create_snapshot w name other d' ≡ (err other_volume, locked_once w name source d')
  create_snapshot-other_volume d d' s ha hs h hk =
      let (found, same) =
        after-Recorded w name source _ s d' ((create_snapshot-Recorded w name source).at d) h in
      known_again w name other s d' ha hk found ∙ rw same (rw hs refl)
