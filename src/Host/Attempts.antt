-- ===== src/Host/Attempts.antt =====
-- beginMount of pkg/common/host_utils.go: the goroutines that mount one target path. `registered` is
-- whether the registry has an attempt for the path; the entries of other paths are apart. Each step is
-- what the code does under the mutex of the registry, or one call.
use csi_plugin.Base.{
  ℕ, ◌+◌, ◌≤◌, ◌≡◌, ◌∙◌, sym, refl, Bool, true, false, List, [], ◌∷◌, ◌++◌, arith, if◌then◌else◌,
}

-- Where the goroutine of an attempt stands: in the mount, behind it, without its entry in the registry,
-- and with its channel closed.
pub data Phase : Type 0 where
  mounting returned unregistered done : Phase

pub record System : Type 0 where
  pub attempts : List Phase
  pub registered : Bool

-- A caller joins the attempt that runs, or starts one.
unfoldable pub begin_mount : System → System
begin_mount s =
    if s.registered then s else record { attempts = mounting ∷ s.attempts; registered = true }

-- The next step of the goroutine of an attempt, with the registry after it.
unfoldable pub next : Phase → Bool → Phase × Bool
next mounting b = (returned, b)
next returned b = (unregistered, false)
next unregistered b = (done, b)
next done b = (done, b)

pub data Step : System → System → Type 0 where
  begins : (s : System) → Step s (begin_mount s)
  goes_on :
      (l r : List Phase) (p : Phase) (b : Bool)
      → Step
          (record { attempts = l ++ p ∷ r; registered = b })
          (record { attempts = l ++ (next p b).0 ∷ r; registered = (next p b).1 })

abbrev pub start : System
start = record { attempts = []; registered = false }

-- Reached by the steps of any callers and attempts, in any order.
pub data Reach : System → Type 0 where
  here : Reach start
  after : {s t : System} → Reach s → Step s t → Reach t

abbrev one_in_mount : Phase → ℕ
one_in_mount mounting = 1
one_in_mount _ = 0

-- How many attempts are in the mount.
unfoldable pub in_mount : List Phase → ℕ
in_mount [] = 0
in_mount (p ∷ l) = one_in_mount p + in_mount l

abbrev one_in_flight : Phase → ℕ
one_in_flight mounting = 1
one_in_flight returned = 1
one_in_flight unregistered = 0
one_in_flight done = 0

in_flight : List Phase → ℕ
in_flight [] = 0
in_flight (p ∷ l) = one_in_flight p + in_flight l

in_flight-append :
    (l r : List Phase) (p : Phase)
    → in_flight (l ++ p ∷ r) ≡ one_in_flight p + (in_flight l + in_flight r)
unfolding in_flight
in_flight-append [] r p = omega arith
in_flight-append (q ∷ l) r p = let i = in_flight-append l r p in omega arith

-- The entry of the registry is that of the one attempt that is not yet unregistered.
abbrev Inv : System → Type 0
Inv s = in_flight s.attempts ≡ (if s.registered then 1 else 0)

begin_mount-Inv :
    (attempts : List Phase) (b : Bool)
    → Inv (record { attempts = attempts; registered = b })
    → Inv (begin_mount (record { attempts = attempts; registered = b }))
unfolding begin_mount in_flight
begin_mount-Inv l true i = i
begin_mount-Inv l false i = omega arith

next-Inv :
    (l r : List Phase) (p : Phase) (b : Bool)
    → Inv (record { attempts = l ++ p ∷ r; registered = b })
    → Inv (record { attempts = l ++ (next p b).0 ∷ r; registered = (next p b).1 })
unfolding next
next-Inv l r mounting b i =
    in_flight-append l r returned ∙ (sym (in_flight-append l r mounting) ∙ i)
next-Inv l r returned true i =
    let a = in_flight-append l r unregistered in
    let c = in_flight-append l r returned in omega arith
next-Inv l r returned false i = let c = in_flight-append l r returned in omega arith
next-Inv l r unregistered b i =
    in_flight-append l r done ∙ (sym (in_flight-append l r unregistered) ∙ i)
next-Inv l r done b i = i

reach-Inv : {s : System} → Reach s → Inv s
unfolding in_flight
reach-Inv here = refl
reach-Inv (after r (begins s)) = begin_mount-Inv s.attempts s.registered (reach-Inv r)
reach-Inv (after r (goes_on l k p b)) = next-Inv l k p b (reach-Inv r)

in_mount-in_flight : (l : List Phase) → in_mount l ≤ in_flight l
unfolding in_mount in_flight
in_mount-in_flight [] = omega arith
in_mount-in_flight (mounting ∷ l) = let i = in_mount-in_flight l in omega arith
in_mount-in_flight (returned ∷ l) = let i = in_mount-in_flight l in omega arith
in_mount-in_flight (unregistered ∷ l) = let i = in_mount-in_flight l in omega arith
in_mount-in_flight (done ∷ l) = let i = in_mount-in_flight l in omega arith

registered_once : (b : Bool) (n k : ℕ) → n ≤ k → k ≡ (if b then 1 else 0) → n ≤ 1
registered_once true n k l e = omega arith
registered_once false n k l e = omega arith

-- However many callers there are, and in whatever order they and the attempts go on, at most one
-- goroutine is in a mount of the path.
pub one_mount_at_once : (s : System) → Reach s → in_mount s.attempts ≤ 1
one_mount_at_once s r =
    registered_once s.registered (in_mount s.attempts) (in_flight s.attempts)
      (in_mount-in_flight s.attempts) (reach-Inv r)
