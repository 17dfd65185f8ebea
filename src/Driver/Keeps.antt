-- ===== src/Driver/Keeps.antt =====
-- Invariants of the driver: the rules of Effect/Keeps, and those for requests, locks and the cache.
use csi_plugin.Base.{ℕ, String, Bool, true, false, ◌∷◌}
use csi_plugin.Driver.{
  World, Driver, Event, OffAnvil, History, Op, call, try_lock, lock_volume, unlock_volume,
  lock_mount_slot, unlock_mount_slot, with_mount_slot, lock_snapshot, unlock_snapshot,
  with_volume_lock, with_snapshot_lock, CacheData, cached, remember,
}
use csi_plugin.Cache.{Cache}
use csi_plugin.Grpc.{Result, ok}
pub use csi_plugin.Effect.Keeps.{
  Keeps, Keeps-pure, Keeps-raise, Keeps-lift, Keeps-attempt, Keeps-map_error, Keeps-if, Keeps-guard,
  Keeps-bind, Keeps-finally, Keeps-on_failure, Keeps-Option, Keeps-Result, Keeps-lift_bind,
}

module _ {A : Type 0} {P : Driver → Type 0} where
  pub Keeps-call :
      (e : Event) (answer : History → Result A)
      → ((d : Driver) → P d → P (record d { history = e ∷ d.history }))
      → Keeps P (call e answer)
  Keeps-call e answer k = record { at = k }

module _ {P : Driver → Type 0} (e : Event)
    (keeps : (d : Driver) → P d → P (record d { history = e ∷ d.history })) where
  Keeps-try_lock : (b : Bool) (message : String) → Keeps P (try_lock b e message)
  Keeps-try_lock true message = record { at = keeps }
  Keeps-try_lock false message = record { at = λ d h. h }

module _ (w : World) {A : Type 0} {P : Driver → Type 0}
    (keeps : (e : Event)
      → OffAnvil e
      → (d : Driver) → P d
      → P (record d { history = e ∷ d.history })) where
  -- An operation under a lock, with or without getting it.
  pub Keeps-with_volume_lock :
      (key : String) (m : Op A) → Keeps P m → Keeps P (with_volume_lock w key m)
  unfolding with_volume_lock
  Keeps-with_volume_lock key m k =
      Keeps-bind _ _
        (record {
          at = λ d. (Keeps-try_lock _ (keeps _ tt) (w.lock d.history (lock_volume key)) _).at d;
        })
        λ _. Keeps-finally m _ k (Keeps-call (unlock_volume key) (λ _. ok tt) (keeps _ tt))

  pub Keeps-with_snapshot_lock :
      (key : String) (m : Op A) → Keeps P m → Keeps P (with_snapshot_lock w key m)
  unfolding with_snapshot_lock
  Keeps-with_snapshot_lock key m k =
      Keeps-bind _ _
        (record {
          at = λ d. (Keeps-try_lock _ (keeps _ tt) (w.lock d.history (lock_snapshot key)) _).at d;
        })
        λ _. Keeps-finally m _ k (Keeps-call (unlock_snapshot key) (λ _. ok tt) (keeps _ tt))

module _ {P : Driver → Type 0}
    (keeps_lock : (d : Driver) → P d → P (record d { history = lock_mount_slot ∷ d.history }))
    (keeps_unlock : (d : Driver)
      → P d
      → P (record d { history = unlock_mount_slot ∷ d.history })) where
  pub Keeps-with_mount_slot :
      (w : World) {A : Type 0} (m : Op A) → Keeps P m → Keeps P (with_mount_slot w m)
  unfolding with_mount_slot
  Keeps-with_mount_slot w m k =
      Keeps-bind _ _
        (record {
          at = λ d. (Keeps-try_lock _ keeps_lock (w.lock d.history lock_mount_slot) _).at d;
        })
        λ _. Keeps-finally m _ k (Keeps-call unlock_mount_slot (λ _. ok tt) keeps_unlock)

-- The cache is no part of an invariant that does not read it.
module _ (w : World) {P : Driver → Type 0}
    (keeps : (c : Cache CacheData) (d : Driver) → P d → P (record d { cache = c })) where
  pub Keeps-cached : (key : String) → Keeps P (cached w key)
  unfolding cached
  Keeps-cached key = record { at = λ d h. keeps _ d h }

  pub Keeps-remember :
      (key : String) (value : CacheData) (seconds : ℕ) → Keeps P (remember w key value seconds)
  unfolding remember
  Keeps-remember key value seconds = record { at = λ d h. keeps _ d h }

pub ruleset keeps_rules = (
  Keeps-pure, Keeps-raise, Keeps-lift, Keeps-attempt, Keeps-map_error, Keeps-call, Keeps-if,
  Keeps-guard, Keeps-bind, Keeps-finally, Keeps-on_failure, Keeps-Option, Keeps-Result,
)
