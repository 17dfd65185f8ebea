-- ===== src/Mount/Threads/Safety.antt =====
-- Runs of goroutines that acquire and release one backing share.
use csi_plugin.Base.{
  ℕ, zero, suc, ◌+◌, ◌<◌, ◌≡◌, ◌∙◌, sym, ap, Bool, true, false, List, [], ◌∷◌, arith, if◌then◌else◌,
}
use mathlib.Core.Path.{subst}
use csi_plugin.Mount.Threads.{Pc, idle, System, Step, step, Reach, here, next}
use csi_plugin.Mount.Threads.Invariant.{
  has_ref, holds, unsettled, closing, unlocked_unmount, works, count, count-middle, kinds, IsSafe,
  Known, Then, Safe, advance-Safe,
}

abbrev pub SystemSafe : System → Type 0
SystemSafe s = IsSafe (λ f. count f s.threads) s.shared.refs s.shared.mounted s.shared.locked

abbrev pub idle_threads : ℕ → List Pc
idle_threads zero = []
idle_threads (suc n) = idle ∷ idle_threads n

-- `n` goroutines that have not begun, with no reference and the lock free.
abbrev pub start : ℕ → Bool → System
start n m = record {
  threads = idle_threads n;
  shared = record { refs = 0; mounted = m; locked = false };
}

pub start-SystemSafe : (n : ℕ) (m : Bool) → SystemSafe (start n m)
start-SystemSafe zero m = ground arith
start-SystemSafe (suc n) m = let h = start-SystemSafe n m in ground arith

abbrev others : List Pc → List Pc → (Pc → ℕ) → ℕ
others xs ys f = count f xs + count f ys

IsSafe-ext :
    (c c' : (Pc → ℕ) → ℕ) (r : ℕ) (m l : Bool)
    → ((f : Pc → ℕ) → c f ≡ c' f)
    → IsSafe c r m l
    → IsSafe c' r m l
IsSafe-ext c c' r m l e h =
    ground (arith, e unlocked_unmount, e has_ref, e holds, e unsettled, e closing)

Step-SystemSafe : (s t : System) → Step Known s t → SystemSafe s → SystemSafe t
Step-SystemSafe s t (step xs ys p q o k es ea et) h =
    let before =
      IsSafe-ext (λ f. count f s.threads) (λ f. count f xs + count f ys + f p) s.shared.refs
        s.shared.mounted s.shared.locked
        (λ f. ap (count f) es ∙ omega (arith, count-middle f xs p ys)) h in
    IsSafe-ext (λ f. count f xs + count f ys + f q) (λ f. count f t.threads) t.shared.refs
      t.shared.mounted t.shared.locked
      (λ f. (omega (arith, count-middle f xs q ys)) ∙ ap (count f) (sym et))
      (subst (Then (Safe (others xs ys))) ea (
        advance-Safe (others xs ys) (omega (arith, (kinds xs).refs, (kinds ys).refs))
          (omega (arith, (kinds xs).locks, (kinds ys).locks)) o p s.shared k before))

pub Reach-SystemSafe : (s t : System) → Reach Known s t → SystemSafe s → SystemSafe t
Reach-SystemSafe s t here h = h
Reach-SystemSafe s t (next {t = u} r st) h = Step-SystemSafe u t st (Reach-SystemSafe s u r h)

-- However many goroutines acquire and release a backing share, and in whatever order they run: while
-- one of them works on the share, it is mounted. It holds if every unmount is made under the lock of
-- the directory, and no acquire succeeds without the share of the current Anvil: the Anvil knows the
-- share, and no mount from another Anvil is kept because its server
-- cannot be read or the Anvil's addresses cannot be had.
pub working_on_a_mount :
    (n : ℕ) (m : Bool) (t : System)
    → Reach Known (start n m) t
    → 0 < count works t.threads
    → t.shared.mounted ≡ true
working_on_a_mount n m t r k =
    let h = Reach-SystemSafe (start n m) t r (start-SystemSafe n m) in
    let kinds_t = kinds t.threads in ground (arith, h, kinds_t.refs)

-- However many goroutines acquire and release a backing share, and in whatever order they run: the
-- reference count is the number of those that hold a reference, and the lock of the directory is
-- taken exactly if one of them holds it. It holds if every unmount is made under that lock, and no
-- acquire succeeds without the share of the current Anvil, as above.
references_counted :
    (n : ℕ) (m : Bool) (t : System)
    → Reach Known (start n m) t
    → (t.shared.refs ≡ count has_ref t.threads)
      × (count holds t.threads ≡ (if t.shared.locked then 1 else 0))
references_counted n m t r =
    let h = Reach-SystemSafe (start n m) t r (start-SystemSafe n m) in (h.1, h.2)
