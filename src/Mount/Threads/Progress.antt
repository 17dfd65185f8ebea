-- ===== src/Mount/Threads/Progress.antt =====
-- Runs of goroutines on one backing share come to an end, and only when all are done.
use csi_plugin.Base.{
  ℕ, ◌<◌, ◌≡◌, refl, ap, ◌⊎◌, inl, inr, Bool, true, false, Bool-cases, Option, none, some, is_some,
  ltb, ltb→lt, List, [], ◌∷◌, ◌++◌, arith, if◌then◌else◌,
}
use mathlib.Core.Path.{subst}
use csi_plugin.Mount.Threads.{
  Pc, idle, bumping, mounting, rolling_back, acquired, working, dropping, checking, unmounting,
  unlocking, finished, direct, direct_unmounting, Outcome, good, bad, absent, Shared, advance,
  System, Step, step, Reach,
}
use csi_plugin.Mount.Threads.Invariant.{holds, count, count-middle, Known, Then}
use csi_plugin.Mount.Threads.Safety.{SystemSafe, start, Reach-SystemSafe, start-SystemSafe}

-- How many steps are left at most.
abbrev pub remaining : Pc → ℕ
remaining idle = 9
remaining bumping = 8
remaining mounting = 7
remaining rolling_back = 2
remaining acquired = 6
remaining working = 5
remaining dropping = 4
remaining checking = 3
remaining unmounting = 2
remaining unlocking = 1
remaining finished = 0
remaining direct = 2
remaining direct_unmounting = 1

-- A goroutine of the list for which the number is not 0, with those before and after it.
abbrev Picked : (Pc → ℕ) → List Pc → Type 0
Picked f l = (xs : List Pc) × (p : Pc) × (ys : List Pc) × (l ≡ xs ++ p ∷ ys) × (0 < f p)

pick_later : (f : Pc → ℕ) (p : Pc) (l : List Pc) → Picked f l → Picked f (p ∷ l)
pick_later f p l (xs, q, ys, e, h) = (p ∷ xs, q, ys, ap (λ (t : List Pc). p ∷ t) e, h)

pick : (f : Pc → ℕ) (l : List Pc) → 0 < count f l → Picked f l
pick f [] h = elim h [ ]
pick f (p ∷ l) h = elim (Bool-cases (ltb 0 (f p))) [
  | inl e ↦ ([], p, l, refl, ltb→lt _ _ e)
  | inr e ↦ pick_later f p l (pick f l (ground arith))
]

some_of : {A : Type 0} (o : Option A) → is_some o ≡ true → (a : A) × (o ≡ some a)
some_of none h = cc
some_of (some a) h = (a, refl)

-- A goroutine that has the lock, or finds it free, goes on unless it is done.
goes_on :
    (p : Pc) (s : Shared)
    → 0 < remaining p
    → (s.locked ≡ false) ⊎ (0 < holds p)
    → is_some (advance good p s) ≡ true
unfolding advance
goes_on idle s h (inl e) = rw e refl
goes_on idle s h (inr k) = elim k [ ]
goes_on working s h (inl e) = rw e refl
goes_on working s h (inr k) = elim k [ ]
goes_on finished s h k = elim h [ ]
goes_on bumping s h k = refl
goes_on mounting s h k = refl
goes_on rolling_back s h k = refl
goes_on acquired s h k = refl
goes_on dropping s h k = refl
goes_on checking s h k = refl
goes_on unmounting s h k = refl
goes_on unlocking s h k = refl
goes_on direct s h k = refl
goes_on direct_unmounting s h k = refl

-- Every step leaves fewer steps to its goroutine.
advance-remaining :
    (o : Outcome) (p : Pc) (s : Shared) → Then (λ q t. remaining q < remaining p) (advance o p s)
unfolding advance
advance-remaining o idle s = ground arith
advance-remaining o bumping s = ground arith
advance-remaining good mounting s = ground arith
advance-remaining (bad b) mounting s = ground arith
advance-remaining absent mounting s = ground arith
advance-remaining o rolling_back s = ground arith
advance-remaining o acquired s = ground arith
advance-remaining o working s = ground arith
advance-remaining o dropping s = ground arith
advance-remaining good checking s = ground arith
advance-remaining (bad b) checking s = ground arith
advance-remaining absent checking s = ground arith
advance-remaining good unmounting s = ground arith
advance-remaining (bad b) unmounting s = ground arith
advance-remaining absent unmounting s = ground arith
advance-remaining o unlocking s = ground arith
advance-remaining o finished s = tt
advance-remaining good direct s = ground arith
advance-remaining (bad b) direct s = ground arith
advance-remaining absent direct s = ground arith
advance-remaining good direct_unmounting s = ground arith
advance-remaining (bad b) direct_unmounting s = ground arith
advance-remaining absent direct_unmounting s = ground arith

-- The steps that all goroutines have left at most.
abbrev pub work_left : System → ℕ
work_left s = count remaining s.threads

Step-work_left : (s t : System) → Step Known s t → work_left t < work_left s
Step-work_left s t (step xs ys p q o k es ea et) =
    let less =
      subst (Then (λ q t. remaining q < remaining p)) ea (advance-remaining o p s.shared) in
    omega (
      arith,
      less,
      ap (count remaining) es,
      ap (count remaining) et,
      count-middle remaining xs p ys,
      count-middle remaining xs q ys,
    )

-- A goroutine that can go on makes a step of the system.
chosen_go :
    (s : System) (f : Pc → ℕ)
    → ((p : Pc) → 0 < f p → is_some (advance good p s.shared) ≡ true)
    → Picked f s.threads
    → (t : System) × Step Known s t
chosen_go s f go (xs, p, ys, e, h) =
    let ((q, shared), ea) = some_of (advance good p s.shared) (go p h) in
    (record { threads = xs ++ q ∷ ys; shared = shared }, step xs ys p q good tt e ea refl)

holds-remaining : (p : Pc) → 0 < holds p → 0 < remaining p
holds-remaining idle h = elim h [ ]
holds-remaining working h = elim h [ ]
holds-remaining finished h = elim h [ ]
holds-remaining direct h = elim h [ ]
holds-remaining direct_unmounting h = elim h [ ]
holds-remaining p h = ground arith

held :
    (l : List Pc) (locked : Bool)
    → count holds l ≡ (if locked then 1 else 0)
    → locked ≡ true
    → 0 < count holds l
held l locked e h = ground arith

unfinished_go : (t : System) → SystemSafe t → 0 < work_left t → (u : System) × Step Known t u
unfinished_go t safe h = elim (Bool-cases t.shared.locked) [
  | inl locked ↦
      chosen_go t holds (λ p k. goes_on p t.shared (holds-remaining p k) (inr k))
        (pick holds t.threads (held t.threads t.shared.locked safe.2 locked))
  | inr free ↦
      chosen_go t remaining (λ p k. goes_on p t.shared k (inl free)) (pick remaining t.threads h)
]

-- However many goroutines acquire and release a backing share, none waits for ever: in every state that
-- they reach, either no step is left to any of them, or some goroutine can make a step after which
-- fewer steps are left.
pub runs_end :
    (n : ℕ) (m : Bool) (t : System)
    → Reach Known (start n m) t
    → ((work_left t ≡ 0) ⊎ ((u : System) × Step Known t u × (work_left u < work_left t)))
runs_end n m t r = elim (Bool-cases (ltb 0 (work_left t))) [
  | inr e ↦ inl (ground arith)
  | inl e ↦ inr (
      step_down t
        (unfinished_go t (Reach-SystemSafe (start n m) t r (start-SystemSafe n m)) (ltb→lt _ _ e)))
]
  where
    step_down :
        (t : System)
        → (u : System) × Step Known t u
        → (u : System) × Step Known t u × (work_left u < work_left t)
    step_down t (u, st) = (u, st, Step-work_left t u st)
