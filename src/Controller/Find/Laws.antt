-- ===== src/Controller/Find/Laws.antt =====
-- What ListSnapshots and findSnapshotByID report.
use csi_plugin.Base.{
  String, ◌==◌, eq_iff, ◌≡◌, true, false, Option, none, some, List, [], ◌∷◌, arith, Bool-cases, inl,
  inr,
}
use csi_plugin.Base.Int.{ℤ}
use csi_plugin.Driver.{World, Driver}
use csi_plugin.Driver.Ends.{Ends, AtEnd, ends_rules}
use csi_plugin.Types.{Snapshot, SnapshotResponse}
use csi_plugin.Controller.Find.{entries_of, entry_of, list_all_snapshots, list_backend_snapshots}

-- Every entry is a snapshot of the volume.
abbrev pub AllOf : String → List Snapshot → Type 0
AllOf source [] = Unit
AllOf source (s ∷ l) = (s.source_volume_id ≡ source) × AllOf source l

same : (s t : String) → (s == t) ≡ true → s ≡ t
same s t h = ground (arith, eq_iff s t)

module _ (source : String) (given : (source == "") ≡ false) where
  entries_of-AllOf : (l : List SnapshotResponse) → AllOf source (entries_of source l)
  unfolding entries_of
  entries_of-AllOf [] = tt
  entries_of-AllOf (s ∷ l) = elim (Bool-cases (s.source_volume_id == source)) [
    | inl e ↦ rw given (rw e (same _ _ e, entries_of-AllOf l))
    | inr e ↦ rw given (rw e (entries_of-AllOf l))
  ]

  entry_of-AllOf : (o : Option Snapshot) → AllOf source (entry_of source o)
  unfolding entry_of
  entry_of-AllOf none = tt
  entry_of-AllOf (some s) = elim (Bool-cases (s.source_volume_id == source)) [
    | inl e ↦ rw given (rw e (same _ _ e, tt))
    | inr e ↦ rw given (rw e tt)
  ]

  backend-AllOf : (w : World) → Ends (λ l d. AllOf source l) (list_backend_snapshots w source)
  unfolding list_backend_snapshots
  backend-AllOf w = search (ends_rules, entries_of-AllOf) depth 8

  all-AllOf :
      (w : World) (max : ℤ) (id : String)
      → Ends (λ l d. AllOf source l) (list_all_snapshots w max id source)
  unfolding list_all_snapshots
  all-AllOf w max id = search (ends_rules, backend-AllOf, entry_of-AllOf) depth 8

-- ListSnapshots for a source volume reports snapshots of that volume alone, whether it lists the backend
-- or looks up one snapshot ID, and whatever the Anvil answers.
pub list_snapshots-source :
    (w : World) (max : ℤ) (id source : String) (d : Driver)
    → (source == "") ≡ false
    → AtEnd (λ l d. AllOf source l) (list_all_snapshots w max id source d)
list_snapshots-source w max id source d given = (all-AllOf source given w max id).at d
