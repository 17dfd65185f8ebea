-- ===== src/Mount/Threads/Invariant.antt =====
-- The invariant of the goroutines of one backing directory, while every unmount is made under the
-- lock of the directory.
use csi_plugin.Base.{
  ℕ, zero, suc, ◌+◌, ◌-◌, ◌≤◌, ◌<◌, ◌≡◌, Bool, true, false, Option, none, some, List, [], ◌∷◌, ◌++◌,
  arith, eqb, if◌then◌else◌,
}
use csi_plugin.Mount.Threads.{
  Pc, idle, bumping, mounting, rolling_back, acquired, working, dropping, checking, unmounting,
  unlocking, finished, direct, direct_unmounting, Outcome, good, bad, absent, Shared, advance,
}

abbrev pub has_ref : Pc → ℕ
has_ref mounting = 1
has_ref rolling_back = 1
has_ref acquired = 1
has_ref working = 1
has_ref dropping = 1
has_ref _ = 0

abbrev pub holds : Pc → ℕ
holds idle = 0
holds working = 0
holds finished = 0
holds direct = 0
holds direct_unmounting = 0
holds _ = 1

-- With a reference, and no mount yet.
abbrev pub unsettled : Pc → ℕ
unsettled mounting = 1
unsettled rolling_back = 1
unsettled _ = 0

-- Past the drop of the last reference, and about to unmount.
abbrev pub closing : Pc → ℕ
closing checking = 1
closing unmounting = 1
closing _ = 0

abbrev pub unlocked_unmount : Pc → ℕ
unlocked_unmount direct = 1
unlocked_unmount direct_unmounting = 1
unlocked_unmount _ = 0

abbrev pub works : Pc → ℕ
works working = 1
works _ = 0

abbrev pub count : (Pc → ℕ) → List Pc → ℕ
count f [] = 0
count f (p ∷ l) = f p + count f l

pub count-middle :
    (f : Pc → ℕ) (xs : List Pc) (p : Pc) (ys : List Pc)
    → count f (xs ++ p ∷ ys) ≡ count f xs + f p + count f ys
count-middle f [] p ys = omega arith
count-middle f (x ∷ xs) p ys = omega (arith, count-middle f xs p ys)

-- The kinds of goroutines within one another.
pub record Kinds (l : List Pc) : Type 0 where
  pub refs : count unsettled l + count works l ≤ count has_ref l
  pub locks : count unsettled l + count closing l ≤ count holds l

pub kinds : (l : List Pc) → Kinds l
kinds [] = record { refs = omega arith; locks = omega arith }
kinds (idle ∷ l) = let k = kinds l in omega arith
kinds (p ∷ l) = let k = kinds l in omega arith

-- `c` counts the goroutines of a kind.
abbrev pub IsSafe : ((Pc → ℕ) → ℕ) → ℕ → Bool → Bool → Type 0
IsSafe c refs mounted locked =
    (c unlocked_unmount ≡ 0)
    × (refs ≡ c has_ref)
    × (c holds ≡ (if locked then 1 else 0))
    × (0 < c unsettled → refs ≡ 1)
    × (0 < c closing → refs ≡ 0)
    × (c unsettled ≡ 0 → 0 < refs → mounted ≡ true)

abbrev pub Known : Outcome → Pc → Type 0
Known absent p = ⊥
Known _ p = Unit

eqb-suc : (n : ℕ) → eqb (suc n) 0 ≡ false
eqb-suc n = ground arith

eqb-pred : (n : ℕ) → eqb (suc (suc n) - 1) 0 ≡ false
eqb-pred n = ground arith

abbrev pub Then : (Pc → Shared → Type 0) → Option (Pc × Shared) → Type 0
Then P none = Unit
Then P (some (q, t)) = P q t

abbrev pub Safe : ((Pc → ℕ) → ℕ) → Pc → Shared → Type 0
Safe a p s = IsSafe (λ f. a f + f p) s.refs s.mounted s.locked

module _ (a : (Pc → ℕ) → ℕ) (refs_le : a unsettled + a works ≤ a has_ref)
    (locks_le : a unsettled + a closing ≤ a holds) where
  advance-idle :
      (o : Outcome) (r : ℕ) (m l : Bool)
      → Known o idle
      → Safe a idle (record { refs = r; mounted = m; locked = l })
      → Then (Safe a) (advance o idle (record { refs = r; mounted = m; locked = l }))
  unfolding advance
  advance-idle o r m true k h = tt
  advance-idle o r m false k h = ground arith

  advance-bumping :
      (o : Outcome) (r : ℕ) (m l : Bool)
      → Known o bumping
      → Safe a bumping (record { refs = r; mounted = m; locked = l })
      → Then (Safe a) (advance o bumping (record { refs = r; mounted = m; locked = l }))
  unfolding advance
  advance-bumping o zero m l k h = ground arith
  advance-bumping o (suc n) m l k h = rw (eqb-suc n) ground arith

  advance-mounting :
      (o : Outcome) (r : ℕ) (m l : Bool)
      → Known o mounting
      → Safe a mounting (record { refs = r; mounted = m; locked = l })
      → Then (Safe a) (advance o mounting (record { refs = r; mounted = m; locked = l }))
  unfolding advance
  advance-mounting good r m l k h = ground arith
  advance-mounting absent r m l k h = elim k [ ]
  advance-mounting (bad b) r m l k h = ground arith

  advance-rolling_back :
      (o : Outcome) (r : ℕ) (m l : Bool)
      → Known o rolling_back
      → Safe a rolling_back (record { refs = r; mounted = m; locked = l })
      → Then (Safe a) (advance o rolling_back (record { refs = r; mounted = m; locked = l }))
  unfolding advance
  advance-rolling_back o r m l k h = ground arith

  advance-acquired :
      (o : Outcome) (r : ℕ) (m l : Bool)
      → Known o acquired
      → Safe a acquired (record { refs = r; mounted = m; locked = l })
      → Then (Safe a) (advance o acquired (record { refs = r; mounted = m; locked = l }))
  unfolding advance
  advance-acquired o r m l k h = ground arith

  advance-working :
      (o : Outcome) (r : ℕ) (m l : Bool)
      → Known o working
      → Safe a working (record { refs = r; mounted = m; locked = l })
      → Then (Safe a) (advance o working (record { refs = r; mounted = m; locked = l }))
  unfolding advance
  advance-working o r m true k h = tt
  advance-working o r m false k h = ground arith

  advance-dropping :
      (o : Outcome) (r : ℕ) (m l : Bool)
      → Known o dropping
      → Safe a dropping (record { refs = r; mounted = m; locked = l })
      → Then (Safe a) (advance o dropping (record { refs = r; mounted = m; locked = l }))
  unfolding advance
  advance-dropping o zero m l k h = ground arith
  advance-dropping o (suc zero) m l k h = ground arith
  advance-dropping o (suc (suc n)) m l k h = rw (eqb-pred n) ground arith

  advance-checking :
      (o : Outcome) (r : ℕ) (m l : Bool)
      → Known o checking
      → Safe a checking (record { refs = r; mounted = m; locked = l })
      → Then (Safe a) (advance o checking (record { refs = r; mounted = m; locked = l }))
  unfolding advance
  advance-checking good zero m l k h = ground arith
  advance-checking good (suc n) m l k h = ground arith
  advance-checking absent r m l k h = elim k [ ]
  advance-checking (bad b) r m l k h = ground arith

  advance-unmounting :
      (o : Outcome) (r : ℕ) (m l : Bool)
      → Known o unmounting
      → Safe a unmounting (record { refs = r; mounted = m; locked = l })
      → Then (Safe a) (advance o unmounting (record { refs = r; mounted = m; locked = l }))
  unfolding advance
  advance-unmounting good r m l k h = ground arith
  advance-unmounting absent r m l k h = elim k [ ]
  advance-unmounting (bad b) r m l k h = ground arith

  advance-unlocking :
      (o : Outcome) (r : ℕ) (m l : Bool)
      → Known o unlocking
      → Safe a unlocking (record { refs = r; mounted = m; locked = l })
      → Then (Safe a) (advance o unlocking (record { refs = r; mounted = m; locked = l }))
  unfolding advance
  advance-unlocking o r m l k h = ground arith

  pub advance-Safe :
      (o : Outcome) (p : Pc) (s : Shared) → Known o p → Safe a p s → Then (Safe a) (advance o p s)
  unfolding advance
  advance-Safe o idle s = advance-idle o s.refs s.mounted s.locked
  advance-Safe o bumping s = advance-bumping o s.refs s.mounted s.locked
  advance-Safe o mounting s = advance-mounting o s.refs s.mounted s.locked
  advance-Safe o rolling_back s = advance-rolling_back o s.refs s.mounted s.locked
  advance-Safe o acquired s = advance-acquired o s.refs s.mounted s.locked
  advance-Safe o working s = advance-working o s.refs s.mounted s.locked
  advance-Safe o dropping s = advance-dropping o s.refs s.mounted s.locked
  advance-Safe o checking s = advance-checking o s.refs s.mounted s.locked
  advance-Safe o unmounting s = advance-unmounting o s.refs s.mounted s.locked
  advance-Safe o unlocking s = advance-unlocking o s.refs s.mounted s.locked
  advance-Safe o finished s = λ k h. tt
  advance-Safe o direct s = λ k h. ground arith
  advance-Safe o direct_unmounting s = λ k h. ground arith
