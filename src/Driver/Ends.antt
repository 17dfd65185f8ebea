-- ===== src/Driver/Ends.antt =====
-- What holds at the end of an operation that succeeds.
use csi_plugin.Base.{Bool, true, false, Option, none, some, ◌∷◌, String, if◌then◌else◌}
use csi_plugin.Driver.{
  World, Driver, Op, Event, pure, raise, on_result, on_option, finally, with_snapshot_lock,
  unlock_snapshot, with_volume_lock, unlock_volume, ◌>>=◌, continue,
}
use csi_plugin.Grpc.{Error, Result, ok, err}

module _ {A : Type 0} where
  abbrev pub AtEnd : (A → Driver → Type 0) → Result A × Driver → Type 0
  AtEnd Q (ok a, d) = Q a d
  AtEnd Q (err e, d) = Unit

  -- If `m` succeeds, `Q` holds of its result and of the driver then.
  pub record Ends (Q : A → Driver → Type 0) (m : Op A) : Type 0 where
    pub at : (d : Driver) → AtEnd Q (m d)

module _ {A : Type 0} {Q : A → Driver → Type 0} where
  pub Ends-pure : (a : A) → ((d : Driver) → Q a d) → Ends Q (pure a)
  Ends-pure a h = record { at = h }

  pub Ends-raise : (e : Error) → Ends Q (raise e)
  Ends-raise e = record { at = λ d. tt }

  pub Ends-if : (b : Bool) (m n : Op A) → Ends Q m → Ends Q n → Ends Q (if b then m else n)
  Ends-if true m n km kn = km
  Ends-if false m n km kn = kn

  AtEnd-last :
      {B : Type 0} (last : Op B) (r : Result A) (d : Driver)
      → ((a : A) (d : Driver) → Q a d → Q a (last d).1)
      → AtEnd Q (r, d)
      → AtEnd Q (r, (last d).1)
  AtEnd-last last (ok a) d k h = k a d h
  AtEnd-last last (err e) d k h = tt

  pub Ends-finally :
      {B : Type 0} (m : Op A) (last : Op B)
      → Ends Q m
      → ((a : A) (d : Driver) → Q a d → Q a (last d).1)
      → Ends Q (finally m last)
  unfolding finally
  Ends-finally m last km k = record { at = λ d. AtEnd-last last (m d).0 (m d).1 k (km.at d) }

module _ {A B : Type 0} {Q : B → Driver → Type 0} where
  Ends-continue :
      (r : Result A) (f : A → Op B) (d : Driver)
      → ((a : A) → Ends Q (f a))
      → AtEnd Q (continue r f d)
  Ends-continue (ok a) f d k = (k a).at d
  Ends-continue (err e) f d k = tt

  pub Ends-bind : (m : Op A) (f : A → Op B) → ((a : A) → Ends Q (f a)) → Ends Q (m >>= f)
  unfolding ◌>>=◌
  Ends-bind m f k = record { at = λ d. Ends-continue (m d).0 f (m d).1 k }

  AtEnd-continue :
      (R : A → Type 0) (r : Result A) (f : A → Op B) (d : Driver)
      → AtEnd (λ a _. R a) (r, d)
      → ((a : A) → R a → Ends Q (f a))
      → AtEnd Q (continue r f d)
  AtEnd-continue R (ok a) f d h k = (k a h).at d
  AtEnd-continue R (err e) f d h k = tt

  -- The same, with what is known of the result of `m`.
  pub Ends-bind_of :
      (R : A → Type 0) (m : Op A) (f : A → Op B)
      → Ends (λ a _. R a) m
      → ((a : A) → R a → Ends Q (f a))
      → Ends Q (m >>= f)
  unfolding ◌>>=◌
  Ends-bind_of R m f h k = record { at = λ d. AtEnd-continue R (m d).0 f (m d).1 (h.at d) k }

  pub Ends-Result :
      (r : Result A) (f : A → Op B) (g : Error → Op B)
      → ((a : A) → Ends Q (f a))
      → ((e : Error) → Ends Q (g e))
      → Ends Q (on_result r f g)
  Ends-Result (ok a) f g kf kg = kf a
  Ends-Result (err e) f g kf kg = kg e

  pub Ends-Option :
      (o : Option A) (m : Op B) (f : A → Op B)
      → Ends Q m
      → ((a : A) → Ends Q (f a))
      → Ends Q (on_option o m f)
  Ends-Option none m f km kf = km
  Ends-Option (some a) m f km kf = kf a

module _ {A : Type 0} {Q : A → Driver → Type 0} (w : World) where
  -- An operation under a lock, which it may not get.
  pub Ends-with_snapshot_lock :
      (key : String) (m : Op A)
      → Ends Q m
      → ((a : A) (e : Event) (d : Driver) → Q a d → Q a (record d { history = e ∷ d.history }))
      → Ends Q (with_snapshot_lock w key m)
  unfolding with_snapshot_lock
  Ends-with_snapshot_lock key m k keeps =
      Ends-bind _ _ λ _. Ends-finally m _ k λ a d. keeps a (unlock_snapshot key) d

  pub Ends-with_volume_lock :
      (key : String) (m : Op A)
      → Ends Q m
      → ((a : A) (e : Event) (d : Driver) → Q a d → Q a (record d { history = e ∷ d.history }))
      → Ends Q (with_volume_lock w key m)
  unfolding with_volume_lock
  Ends-with_volume_lock key m k keeps =
      Ends-bind _ _ λ _. Ends-finally m _ k λ a d. keeps a (unlock_volume key) d

pub ruleset ends_rules = (Ends-pure, Ends-raise, Ends-if, Ends-bind, Ends-Result, Ends-Option)
