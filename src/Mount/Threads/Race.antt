-- ===== src/Mount/Threads/Race.antt =====
-- UnmountBackingShareIfUnused called directly (the clean-up of pkg/driver/controller.go and
-- pkg/driver/node_helper.go), beside a goroutine that acquires the same backing share.
use csi_plugin.Base.{◌≡◌, refl, true, false, List, [], ◌∷◌}
use csi_plugin.Mount.Threads.{
  Pc, idle, bumping, mounting, acquired, working, finished, direct, direct_unmounting, Outcome,
  good, advance, System, step, Reach, here, next,
}

abbrev pub Good : Outcome → Pc → Type 0
Good o p = o ≡ good

module _ (rest : List Pc) where
  abbrev pub before : System
  before = record {
    threads = direct ∷ idle ∷ rest;
    shared = record { refs = 0; mounted = true; locked = false };
  }

  abbrev pub after : System
  after = record {
    threads = finished ∷ working ∷ rest;
    shared = record { refs = 1; mounted = false; locked = false };
  }

  abbrev acquire : Pc → System
  acquire p = record {
    threads = direct_unmounting ∷ p ∷ rest;
    shared = record { refs = 0; mounted = true; locked = true };
  }

  abbrev decided : System
  decided = record {
    threads = direct_unmounting ∷ idle ∷ rest;
    shared = record { refs = 0; mounted = true; locked = false };
  }

  abbrev holder : System
  holder = record {
    threads = direct_unmounting ∷ working ∷ rest;
    shared = record { refs = 1; mounted = true; locked = false };
  }

  abbrev hold : Pc → System
  hold p = record {
    threads = direct_unmounting ∷ p ∷ rest;
    shared = record { refs = 1; mounted = true; locked = true };
  }

  -- A direct call of UnmountBackingShareIfUnused that finds the backing share unused may unmount it
  -- after another goroutine has acquired it: although the Anvil and the host answer well each time,
  -- that goroutine then works on a share that is not mounted.
  pub direct_unmount-races : Reach Good before after
  unfolding advance
  direct_unmount-races =
      let s0 =
        next {t = before} {u = decided} here
          (step [] (idle ∷ rest) direct direct_unmounting good refl refl refl refl) in
      let s1 =
        next {u = acquire bumping} s0
          (step (direct_unmounting ∷ []) rest idle bumping good refl refl refl refl) in
      let s2 =
        next {u = hold mounting} s1
          (step (direct_unmounting ∷ []) rest bumping mounting good refl refl refl refl) in
      let s3 =
        next {u = hold acquired} s2
          (step (direct_unmounting ∷ []) rest mounting acquired good refl refl refl refl) in
      let s4 =
        next {u = holder} s3
          (step (direct_unmounting ∷ []) rest acquired working good refl refl refl refl) in
      next s4 (step [] (working ∷ rest) direct_unmounting finished good refl refl refl refl)
