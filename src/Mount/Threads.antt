-- ===== src/Mount/Threads.antt =====
-- Several operations on one backing directory at once: acquireBackingMount, releaseBackingMount and the
-- direct calls of UnmountBackingShareIfUnused (pkg/driver/utils.go), cut where another goroutine may
-- run in between. `locked` is the lock of the directory (mountLockFor); bumpBackingRef, dropBackingRef
-- and backingMountRefs are one step each, by the global mutex; `mounted` is whether the share of the
-- current Anvil is mounted. What the Anvil and the host answer is the outcome that a step is given.
pub mod Invariant
pub mod Safety
pub mod Race
pub mod Progress
use csi_plugin.Base.{
  ℕ, ◌+◌, ◌-◌, ◌≡◌, Bool, true, false, Option, none, some, List, ◌∷◌, ◌++◌, ltb, eqb, if◌then◌else◌,
}

-- Where a goroutine stands. With the lock of the directory: from `bumping` to `acquired`, and from
-- `dropping` to `unlocking`. A direct call of UnmountBackingShareIfUnused has no lock.
pub data Pc : Type 0 where
  idle bumping mounting rolling_back acquired working dropping checking unmounting unlocking
        finished :
      Pc
  direct direct_unmounting : Pc

-- `good`: the mount is there, or the unmount is made. `bad b`: an error, which leaves the mount there
-- or not. `absent`: GetShare finds no such share, which ensureBackingShareMounted takes for success; or a mount
-- from another Anvil is kept, since where it is from cannot be read, or the current one cannot be
-- asked for its addresses: then too it
-- succeeds, with the share of the current Anvil not mounted.
pub data Outcome : Type 0 where
  good : Outcome
  bad : Bool → Outcome
  absent : Outcome

pub record Shared : Type 0 where
  pub refs : ℕ
  pub mounted : Bool
  pub locked : Bool

-- ensureBackingShareMounted, with the reference held.
mount_step : Outcome → Shared → Pc × Shared
mount_step good s = (acquired, record s { mounted = true })
mount_step (bad b) s = (rolling_back, record s { mounted = b })
mount_step absent s = (acquired, s)

-- UnmountBackingShareIfUnused up to its decision, which needs no reference, no loop device and answers
-- of the Anvil; `next` unmounts.
check_step : Outcome → Pc → Pc → Shared → Pc × Shared
check_step good next skip s = (if ltb 0 s.refs then skip else next, s)
check_step (bad b) next skip s = (skip, s)
check_step absent next skip s = (skip, s)

unmount_step : Outcome → Pc → Shared → Pc × Shared
unmount_step good next s = (next, record s { mounted = false })
unmount_step (bad b) next s = (next, s)
unmount_step absent next s = (next, s)

-- One step; `none` where the goroutine waits for the lock, or is done.
unfoldable pub advance : Outcome → Pc → Shared → Option (Pc × Shared)
unfolding mount_step check_step unmount_step
advance o idle s = if s.locked then none else some (bumping, record s { locked = true })
advance o bumping s =
    some (if eqb s.refs 0 then mounting else acquired, record s { refs = s.refs + 1 })
advance o mounting s = some (mount_step o s)
advance o rolling_back s = some (unlocking, record s { refs = s.refs - 1 })
advance o acquired s = some (working, record s { locked = false })
advance o working s = if s.locked then none else some (dropping, record s { locked = true })
advance o dropping s =
    some (if eqb (s.refs - 1) 0 then checking else unlocking, record s { refs = s.refs - 1 })
advance o checking s = some (check_step o unmounting unlocking s)
advance o unmounting s = some (unmount_step o unlocking s)
advance o unlocking s = some (finished, record s { locked = false })
advance o finished s = none
advance o direct s = some (check_step o direct_unmounting finished s)
advance o direct_unmounting s = some (unmount_step o finished s)

pub record System : Type 0 where
  pub threads : List Pc
  pub shared : Shared

-- One goroutine, any of them, makes a step with an outcome that `Allowed` admits.
pub data Step (Allowed : Outcome → Pc → Type 0) (s t : System) : Type 0 where
  step :
      (xs ys : List Pc) (p q : Pc) (o : Outcome)
      → Allowed o p
      → s.threads ≡ xs ++ p ∷ ys
      → advance o p s.shared ≡ some (q, t.shared)
      → t.threads ≡ xs ++ q ∷ ys
      → Step Allowed s t

pub data Reach (Allowed : Outcome → Pc → Type 0) (s : System) : System → Type 0 where
  here : Reach Allowed s s
  next : {t u : System} → Reach Allowed s t → Step Allowed t u → Reach Allowed s u
