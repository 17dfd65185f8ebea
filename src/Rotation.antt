-- ===== src/Rotation.antt =====
-- GetRoundRobinOrderedList of pkg/common/utils.go.
pub mod Laws
use csi_plugin.Base.{
  ℕ, zero, suc, ◌+◌, ◌%◌, ◌^◌, Option, none, some, List, [], ◌∷◌, eqb, length, if◌then◌else◌,
}

module _ {ℓ} {A : Type ℓ} where
  -- list[i]; `none` is the panic of an index out of range.
  unfoldable pub get_elem? : List A → ℕ → Option A
  get_elem? [] i = none
  get_elem? (x ∷ xs) zero = some x
  get_elem? (x ∷ xs) (suc i) = get_elem? xs i

  abbrev push_front : Option A → Option (List A) → Option (List A)
  push_front (some x) (some l) = some (x ∷ l)
  push_front (some x) none = none
  push_front none o = none

  -- for i < count: ordered = append(ordered, list[(start+i)%count]), with `rounds` rounds to go.
  unfoldable pub ordered_from : List A → ℕ → ℕ → ℕ → ℕ → Option (List A)
  unfolding get_elem?
  ordered_from list count start i zero = some []
  ordered_from list count start i (suc rounds) =
      push_front (get_elem? list ((start + i) % count))
        (ordered_from list count start (i + 1) rounds)

  -- The index after the atomic increment, and the ordered list.
  unfoldable pub get_round_robin_ordered_list : ℕ → List A → ℕ × Option (List A)
  unfolding ordered_from
  get_round_robin_ordered_list index list =
      let count = length list in
      let index' = (index + 1) % 2 ^ 32 in
      if eqb count 0
      then (index, some [])
      else (index', ordered_from list count (index' % count) 0 count)
