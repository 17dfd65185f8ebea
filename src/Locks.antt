-- ===== src/Locks.antt =====
-- The locks by volume ID (keyLock and acquireVolumeLock of pkg/driver/driver.go), with the calls that
-- wait for one and hold one. A keyLock is a number here, and the weight in use of its semaphore is
-- `weights`; the semaphore (golang.org/x/sync) grants a weight only where the sum stays within its size,
-- here to any of those that wait. The locks by snapshot ID (acquireSnapshotLock) are made the same way,
-- in a map of their own.
pub mod Exclusion
use csi_plugin.Base.{
  ℕ, ◌+◌, ◌-◌, ◌≤◌, String, Option, none, some, List, [], ◌∷◌, ◌++◌, ◌==◌, ◌≡◌, eqb, if◌then◌else◌,
}
use csi_plugin.Base.Dict.{Dict, lookup, insert}

-- A call of acquireVolumeLock with the ID that it asks for and the lock that it found. `holding` lasts
-- until the unlock function that it returned is called.
pub data Caller : Type 0 where
  waiting holding : String → ℕ → Caller

-- `made` is how many locks were made, by which the next one is numbered.
pub record System : Type 0 where
  pub volume_locks : Dict ℕ
  pub made : ℕ
  pub weights : ℕ → ℕ
  pub callers : List Caller

-- newKeyLock: the size of the semaphore.
abbrev pub lock_size : ℕ
lock_size = 1

unfoldable pub with_weight : ℕ → ℕ → (ℕ → ℕ) → ℕ → ℕ
with_weight lock n weights k = if eqb lock k then n else weights k

-- The map under locksMu: the lock of the ID, which is made where there is none.
unfoldable pub find_lock : Option ℕ → String → System → System
find_lock (some lock) id s = record s { callers = waiting id lock ∷ s.callers }
find_lock none id s = record {
  volume_locks = insert id s.made s.volume_locks;
  made = s.made + 1;
  weights = with_weight s.made 0 s.weights;
  callers = waiting id s.made ∷ s.callers;
}

unfoldable pub acquire_volume_lock : String → System → System
acquire_volume_lock id s = find_lock (lookup id s.volume_locks) id s

-- keyLock.lock
unfoldable pub lock_granted : (l r : List Caller) → String → ℕ → System → System
lock_granted l r id lock s = record s {
  weights = with_weight lock (s.weights lock + 1) s.weights;
  callers = l ++ holding id lock ∷ r;
}

-- keyLock.unlock
unfoldable pub unlock : (l r : List Caller) → ℕ → System → System
unlock l r lock s = record s {
  weights = with_weight lock (s.weights lock - 1) s.weights;
  callers = l ++ r;
}

-- The context of a caller that waits ends: acquireVolumeLock returns Aborted.
unfoldable pub give_up : (l r : List Caller) → System → System
give_up l r s = record s { callers = l ++ r }

pub data Step : System → System → Type 0 where
  asks : (s : System) (id : String) → Step s (acquire_volume_lock id s)
  granted :
      (s : System) (l r : List Caller) (id : String) (lock : ℕ)
      → s.callers ≡ l ++ waiting id lock ∷ r
      → s.weights lock + 1 ≤ lock_size
      → Step s (lock_granted l r id lock s)
  gives_up :
      (s : System) (l r : List Caller) (id : String) (lock : ℕ)
      → s.callers ≡ l ++ waiting id lock ∷ r
      → Step s (give_up l r s)
  unlocks :
      (s : System) (l r : List Caller) (id : String) (lock : ℕ)
      → s.callers ≡ l ++ holding id lock ∷ r
      → Step s (unlock l r lock s)

abbrev pub start : System
start = record { volume_locks = []; made = 0; weights = λ lock. 0; callers = [] }

-- Reached by the calls of any goroutines, in any order.
pub data Reach : System → Type 0 where
  here : Reach start
  after : {s t : System} → Reach s → Step s t → Reach t

abbrev pub one_holder : String → Caller → ℕ
one_holder id (waiting j lock) = 0
one_holder id (holding j lock) = if j == id then 1 else 0

-- How many callers hold the lock of the ID.
unfoldable pub holders : String → List Caller → ℕ
holders id [] = 0
holders id (c ∷ l) = one_holder id c + holders id l
