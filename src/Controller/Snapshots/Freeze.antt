-- ===== src/Controller/Snapshots/Freeze.antt =====
-- CreateSnapshot and the freezer.
use csi_plugin.Base.{ℕ, ◌+◌, String, ◌==◌, ◌≡◌, if◌then◌else◌, Bool, true, false, [], ◌∷◌, arith}
use csi_plugin.Driver.{
  World, Driver, History, Op, finally, ◌>>=◌, freeze, unfreeze, get_share, snapshot_share,
  snapshot_file, lock_snapshot, unlock_snapshot, try_lock, record_snapshot, with_snapshot_lock,
  recent_snapshot,
}
use csi_plugin.Driver.Keeps.{
  Keeps, keeps_rules, Keeps-pure, Keeps-bind, Keeps-call, Keeps-finally, Keeps-guard, Keeps-Option,
  Keeps-Result, Keeps-attempt, Keeps-raise, Keeps-if,
}
use csi_plugin.Types.{Snapshot}
use csi_plugin.Controller.Snapshots.{
  file_backed_source, take_snapshot, snapshot_now, snapshot_and_record, has_freezer, while_frozen,
  create_new_snapshot, known_snapshot, create_snapshot,
}

-- How often the file systems of a volume were frozen, and how often thawed.
abbrev pub freezes : String → History → ℕ
freezes volume [] = 0
freezes volume (freeze v ∷ h) = (if v == volume then 1 else 0) + freezes volume h
freezes volume (e ∷ h) = freezes volume h

abbrev pub thaws : String → History → ℕ
thaws volume [] = 0
thaws volume (unfreeze v ∷ h) = (if v == volume then 1 else 0) + thaws volume h
thaws volume (e ∷ h) = thaws volume h

-- Whether the last request about the file systems of a volume was to freeze them.
abbrev pub is_frozen : String → History → Bool
is_frozen volume [] = false
is_frozen volume (freeze v ∷ h) = if v == volume then true else is_frozen volume h
is_frozen volume (unfreeze v ∷ h) = if v == volume then false else is_frozen volume h
is_frozen volume (e ∷ h) = is_frozen volume h

abbrev Frozen : String → ℕ → Bool → Driver → Type 0
Frozen volume n b d =
    (freezes volume d.history ≡ n + thaws volume d.history) × (is_frozen volume d.history ≡ b)

module _ (volume : String) (w : World) (name source : String) (n : ℕ) (b : Bool) where
  file_backed_source-Keeps : Keeps (Frozen volume n b) (file_backed_source w source)
  unfolding file_backed_source
  file_backed_source-Keeps = Keeps-if _ _ _ (Keeps-pure true) (
      Keeps-bind _ _
        (Keeps-bind _ _ (Keeps-attempt _ (Keeps-call (get_share _) _ λ d h. h))
          λ r. Keeps-Result r _ _ Keeps-pure λ e. Keeps-raise _)
        λ share. Keeps-pure _)

  take_snapshot-Keeps :
      (is_file : Bool) → Keeps (Frozen volume n b) (take_snapshot w is_file source)
  unfolding take_snapshot
  take_snapshot-Keeps true =
      Keeps-bind _ _ (Keeps-attempt _ (Keeps-call (snapshot_file _) _ λ d h. h))
        λ r. Keeps-Result r _ _ Keeps-pure λ e. Keeps-raise _
  take_snapshot-Keeps false =
      Keeps-bind _ _ (Keeps-attempt _ (Keeps-call (snapshot_share _) _ λ d h. h))
        λ r. Keeps-Result r _ _ Keeps-pure λ e. Keeps-raise _

  snapshot_now-Keeps : (hs : String) → Keeps (Frozen volume n b) (snapshot_now w name source hs)
  unfolding snapshot_now ◌>>=◌ record_snapshot
  snapshot_now-Keeps hs = record { at = λ d h. h }

  snapshot_and_record-Keeps :
      (is_file : Bool) → Keeps (Frozen volume n b) (snapshot_and_record w name source is_file)
  unfolding snapshot_and_record
  snapshot_and_record-Keeps is_file =
      Keeps-bind _ _ (take_snapshot-Keeps is_file) snapshot_now-Keeps

-- What is done while the file system is frozen leaves it frozen, and then it is thawed.
module _ (volume : String) (w : World) (source : String) (m : Op Snapshot)
    (keeps : (n : ℕ) (b : Bool) → Keeps (Frozen volume n b) m) (n : ℕ) where
  while_frozen-Keeps : (b : Bool) → Keeps (Frozen volume n false) (while_frozen w b source m)
  unfolding while_frozen finally ◌>>=◌
  while_frozen-Keeps false = keeps n false
  while_frozen-Keeps true = record {
    at = λ d h.
        let inside =
          (keeps ((if source == volume then 1 else 0) + n)
              (if source == volume then true else false)).at
            (record d { history = freeze source ∷ d.history }) (ground (arith, h)) in
        ground (arith, inside);
  }

module _ (volume : String) (w : World) (name source : String) (n : ℕ) where
  create_new-Keeps : Keeps (Frozen volume n false) (create_new_snapshot w name source)
  unfolding create_new_snapshot has_freezer
  create_new-Keeps =
      Keeps-bind _ _ (file_backed_source-Keeps volume w name source n false) λ is_file.
        Keeps-bind _ _ (record { at = λ d h. h })
          λ available.
            while_frozen-Keeps volume w source _
              (λ k b. snapshot_and_record-Keeps volume w name source k b is_file) n _

  known-Keeps : (s : Snapshot) → Keeps (Frozen volume n false) (known_snapshot w source s)
  unfolding known_snapshot
  known-Keeps s = search keeps_rules

  lock-Keeps :
      (b : Bool) (message : String)
      → Keeps (Frozen volume n false) (try_lock b (lock_snapshot name) message)
  lock-Keeps true message = record { at = λ d h. h }
  lock-Keeps false message = record { at = λ d h. h }

  create_snapshot-Keeps : Keeps (Frozen volume n false) (create_snapshot w name source)
  unfolding create_snapshot with_snapshot_lock recent_snapshot
  create_snapshot-Keeps = Keeps-bind _ _ (Keeps-guard _ _) λ _.
      Keeps-bind _ _ (Keeps-guard _ _) λ _. Keeps-bind _ _ (Keeps-guard _ _) λ _.
        Keeps-bind _ _
          (record { at = λ d. (lock-Keeps (w.lock d.history (lock_snapshot name)) _).at d })
          λ _.
            Keeps-finally _ _
              (Keeps-bind _ _ (record { at = λ d h. h })
                λ known. Keeps-Option known _ _ create_new-Keeps known-Keeps)
              (Keeps-call (unlock_snapshot name) _ λ d h. h)

-- CreateSnapshot thaws what it freezes, and thaws it last: whatever the Anvil answers, and whether it
-- succeeds or fails, a volume whose file systems were not frozen before, by the requests so far, is not
-- frozen after; and `n` more freezes than thaws of it before are `n` more after. Whether the requests
-- succeed on the hosts is not stated.
pub create_snapshot-thaws :
    (w : World) (name source volume : String) (n : ℕ) (d : Driver)
    → freezes volume d.history ≡ n + thaws volume d.history
    → is_frozen volume d.history ≡ false
    → (freezes volume (create_snapshot w name source d).1.history
        ≡ n + thaws volume (create_snapshot w name source d).1.history)
      × (is_frozen volume (create_snapshot w name source d).1.history ≡ false)
create_snapshot-thaws w name source volume n d h thawed =
    (create_snapshot-Keeps volume w name source n).at d (h, thawed)
