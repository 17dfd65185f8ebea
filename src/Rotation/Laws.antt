-- ===== src/Rotation/Laws.antt =====
-- The ordered list is a rotation of the given one.
use csi_plugin.Base.{
  false, ℕ, zero, suc, ◌+◌, ◌-◌, ◌%◌, ◌^◌, ◌≤◌, ◌<◌, ◌≡◌, refl, ◌∙◌, ap, some, List, [], ◌∷◌, ◌++◌,
  arith, eqb, length,
}
use csi_plugin.Rotation.{get_elem?, ordered_from, get_round_robin_ordered_list}
use native.Mathlib.Nat.{mod-eq_of_lt, add-mod_left, mod-lt}

mod_wrap : (a n p : ℕ) → a ≡ n + p → p < n → a % n ≡ p
mod_wrap a n p e h = rw (e, add-mod_left n p) (mod-eq_of_lt h)

mod_before : (a n : ℕ) → a < n → a % n ≡ a
mod_before a n h = mod-eq_of_lt h

module _ {ℓ} {A : Type ℓ} where
  abbrev pub drop : ℕ → List A → List A
  drop zero l = l
  drop (suc n) [] = []
  drop (suc n) (x ∷ l) = drop n l

  abbrev pub take : ℕ → List A → List A
  take zero l = []
  take (suc n) [] = []
  take (suc n) (x ∷ l) = x ∷ take n l

  drop_step :
      (l : List A) (i : ℕ)
      → i < length l
      → (x : A) × (get_elem? l i ≡ some x) × (drop i l ≡ x ∷ drop (suc i) l)
  unfolding get_elem?
  drop_step [] i h = absurd (omega arith)
  drop_step (x ∷ l) zero h = (x, refl, refl)
  drop_step (x ∷ l) (suc i) h = drop_step l i (omega arith)

  drop-length : (l : List A) → drop (length l) l ≡ []
  drop-length [] = refl
  drop-length (x ∷ l) = drop-length l

  -- The rounds behind the wrap, which read from position p on.
  behind :
      (l : List A) (start i p rounds : ℕ)
      → start + i ≡ length l + p
      → p + rounds ≤ length l
      → ordered_from l (length l) start i rounds ≡ some (take rounds (drop p l))
  unfolding ordered_from
  behind l start i p zero e h = refl
  behind l start i p (suc r) e h =
      let (x, at, split) = drop_step l p (omega arith) in
      rw (
        mod_wrap (start + i) (length l) p e (omega arith),
        at,
        split,
        behind l start (i + 1) (suc p) r (omega arith) (omega arith),
      )

  -- The rounds before the wrap, `k` of them, and `r` behind it.
  before :
      (l : List A) (start i k r rounds : ℕ)
      → rounds ≡ k + r
      → start + i + k ≡ length l
      → r ≤ length l
      → ordered_from l (length l) start i rounds ≡ some (drop (start + i) l ++ take r l)
  unfolding ordered_from
  before l start i zero r rounds e h b =
      let same : rounds ≡ r = omega arith in
      let end : start + i ≡ length l = omega arith in
      rw (same, behind l start i 0 r (omega arith) (omega arith), end, drop-length l)
  before l start i (suc k) r zero e h b = absurd (omega arith)
  before l start i (suc k) r (suc m) e h b =
      let (x, at, split) = drop_step l (start + i) (omega arith) in
      rw
        (
          mod_before (start + i) (length l) (omega arith),
          at,
          split,
          before l start (i + 1) k r m (omega arith) (omega arith) b,
        )
        (let e' : start + (i + 1) ≡ suc (start + i) = omega arith in rw e')

  -- A list that is not empty comes back rotated, to start behind the position that the index names
  -- after it was incremented modulo 2^32; no element is lost, doubled, or read out of range.
  get_round_robin-rotation :
      (index : ℕ) (list : List A)
      → 0 < length list
      → let next = (index + 1) % 2 ^ 32 in
        get_round_robin_ordered_list index list
        ≡ (next, some (drop (next % length list) list ++ take (next % length list) list))
  unfolding get_round_robin_ordered_list
  get_round_robin-rotation index list h =
      let start : ℕ = (index + 1) % 2 ^ 32 % length list in
      let room : start < length list = mod-lt _ h in
      let test : eqb (length list) 0 ≡ false = ground arith in
      let first : start + 0 ≡ start = omega arith in
      rw test (
        ap (λ o. ((index + 1) % 2 ^ 32, o))
          (before list start 0 (length list - start) start (length list) (omega arith) (omega arith)
              (omega arith)
            ∙ ap (λ k. some (drop k list ++ take start list)) first))
