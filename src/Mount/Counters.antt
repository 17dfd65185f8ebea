-- ===== src/Mount/Counters.antt =====
-- What the map of references promises: a counter for each directory.
use csi_plugin.Base.{
  ℕ, ◌+◌, ◌-◌, String, ◌==◌, ◌≡◌, refl, Bool, List, [], ◌∷◌, arith, eqb, if◌then◌else◌,
}
use csi_plugin.Base.Dict.{Dict, lookup-nil}
use csi_plugin.Mount.Refs.{refs_of, bump_backing_ref, drop_backing_ref, refs_of-bump, refs_of-drop}

pub data RefOp : Type 0 where
  bump drop : String → RefOp

-- The map of the driver, and the answers of bumpBackingRef and dropBackingRef in turn.
pub apply : RefOp → Dict ℕ → Bool × Dict ℕ
apply (bump dir) refs = bump_backing_ref dir refs
apply (drop dir) refs = drop_backing_ref dir refs

unfoldable pub answers : List RefOp → Dict ℕ → List Bool
unfolding apply
answers [] refs = []
answers (op ∷ ops) refs = (apply op refs).0 ∷ answers ops (apply op refs).1

unfoldable pub refs_after : List RefOp → Dict ℕ → Dict ℕ
unfolding apply
refs_after [] refs = refs
refs_after (op ∷ ops) refs = refs_after ops (apply op refs).1

-- The counters: the first reservation and the last release answer true, and a release at 0 changes
-- nothing.
abbrev pub count_after : RefOp → (String → ℕ) → String → ℕ
count_after (bump dir) n other = if dir == other then n other + 1 else n other
count_after (drop dir) n other = if dir == other then n other - 1 else n other

abbrev pub count_answer : RefOp → (String → ℕ) → Bool
count_answer (bump dir) n = eqb (n dir) 0
count_answer (drop dir) n = eqb (n dir - 1) 0

unfoldable pub spec_answers : List RefOp → (String → ℕ) → List Bool
spec_answers [] n = []
spec_answers (op ∷ ops) n = count_answer op n ∷ spec_answers ops (count_after op n)

unfoldable pub spec_counts : List RefOp → (String → ℕ) → String → ℕ
spec_counts [] n = n
spec_counts (op ∷ ops) n = spec_counts ops (count_after op n)

-- `refs` stands for the counters `n`.
abbrev Implements : Dict ℕ → (String → ℕ) → Type 0
Implements refs n = (dir : String) → refs_of dir refs ≡ n dir

apply-Implements :
    (op : RefOp) (refs : Dict ℕ) (n : String → ℕ)
    → Implements refs n
    → Implements (apply op refs).1 (count_after op n)
unfolding apply
apply-Implements (bump dir) refs n h other = ground (arith, refs_of-bump dir other refs, h other)
apply-Implements (drop dir) refs n h other = ground (arith, refs_of-drop dir other refs, h other)

apply-answer :
    (op : RefOp) (refs : Dict ℕ) (n : String → ℕ)
    → Implements refs n
    → (apply op refs).0 ≡ count_answer op n
unfolding apply
apply-answer (bump dir) refs n h = ground (arith, refs_of-bump dir dir refs, h dir)
apply-answer (drop dir) refs n h = ground (arith, refs_of-drop dir dir refs, h dir)

answers-Implements :
    (ops : List RefOp) (refs : Dict ℕ) (n : String → ℕ)
    → Implements refs n
    → answers ops refs ≡ spec_answers ops n
unfolding answers spec_answers
answers-Implements [] refs n h = refl
answers-Implements (op ∷ ops) refs n h = cc (
  apply-answer op refs n h,
  answers-Implements ops (apply op refs).1 (count_after op n) (apply-Implements op refs n h),
)

refs_after-Implements :
    (ops : List RefOp) (refs : Dict ℕ) (n : String → ℕ)
    → Implements refs n
    → Implements (refs_after ops refs) (spec_counts ops n)
unfolding refs_after spec_counts
refs_after-Implements [] refs n h = h
refs_after-Implements (op ∷ ops) refs n h =
    refs_after-Implements ops (apply op refs).1 (count_after op n) (apply-Implements op refs n h)

none_yet : Implements [] (λ _. 0)
unfolding refs_of
none_yet dir = rw (lookup-nil {V = ℕ} dir) refl

-- Any sequence of reservations and releases on any directories, from the empty map on, gives the answers
-- that a counter for each directory gives, and leaves the numbers of those counters: the map of the
-- driver implements the counters, though it keeps no entry for a directory without references.
pub answers-spec_answers :
    (ops : List RefOp) (dir : String)
    → (answers ops [] ≡ spec_answers ops (λ _. 0))
      × (refs_of dir (refs_after ops []) ≡ spec_counts ops (λ _. 0) dir)
answers-spec_answers ops dir = (
  answers-Implements ops [] (λ _. 0) none_yet,
  refs_after-Implements ops [] (λ _. 0) none_yet dir,
)
