-- ===== src/Mount/Refs.antt =====
-- The in-flight references of each backing directory: bumpBackingRef, dropBackingRef and
-- backingMountRefs of pkg/driver/utils.go, on the map `mountRefs`.
use csi_plugin.Base.{
  ℕ, ◌+◌, ◌-◌, String, ◌==◌, eq_iff, ◌≡◌, Bool, true, false, Option, none, some, arith, ltb, eqb,
  if◌then◌else◌,
}
use csi_plugin.Base.Dict.{Dict, lookup, insert, erase, lookup-insert, lookup-erase}

abbrev value_or_zero : Option ℕ → ℕ
value_or_zero none = 0
value_or_zero (some n) = n

-- d.mountRefs[dir]
unfoldable pub refs_of : String → Dict ℕ → ℕ
refs_of dir refs = value_or_zero (lookup dir refs)

unfoldable pub bump_backing_ref : String → Dict ℕ → Bool × Dict ℕ
unfolding refs_of
bump_backing_ref dir refs = let n = refs_of dir refs in (eqb n 0, insert dir (n + 1) refs)

-- What remains after the guarded decrement decides whether the entry goes.
settle : String → ℕ → Dict ℕ → Bool × Dict ℕ
settle dir n refs = if eqb n 0 then (true, erase dir refs) else (false, insert dir n refs)

unfoldable pub drop_backing_ref : String → Dict ℕ → Bool × Dict ℕ
unfolding refs_of settle
drop_backing_ref dir refs =
    let n = refs_of dir refs in settle dir (if ltb 0 n then n - 1 else n) refs

module _ (dir other : String) (refs : Dict ℕ) where
  -- A reservation adds one to its own directory and to no other, and reports the step from none to one.
  pub refs_of-bump :
      (refs_of other (bump_backing_ref dir refs).1
        ≡ (if dir == other then refs_of other refs + 1 else refs_of other refs))
      × ((bump_backing_ref dir refs).0 ≡ eqb (refs_of dir refs) 0)
  unfolding bump_backing_ref
  refs_of-bump =
      ground (arith, lookup-insert dir other (refs_of dir refs + 1) refs, eq_iff dir other)

  -- Dropping takes one away where there is one, from its own directory alone, and reports whether none
  -- is left.
  pub refs_of-drop :
      (refs_of other (drop_backing_ref dir refs).1
        ≡ (if dir == other then refs_of other refs - 1 else refs_of other refs))
      × ((drop_backing_ref dir refs).0 ≡ eqb (refs_of dir refs - 1) 0)
  unfolding drop_backing_ref
  refs_of-drop = ground (
    arith,
    lookup-insert dir other (refs_of dir refs - 1) refs,
    lookup-erase dir other refs,
    eq_iff dir other,
  )
