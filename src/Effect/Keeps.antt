-- ===== src/Effect/Keeps.antt =====
-- Invariants of operations on any state: one rule for each way to build one.
use csi_plugin.Base.{◌≡◌, refl, Bool, true, false, Option, none, some, if◌then◌else◌}
use csi_plugin.Effect.{
  OpOn, pure, raise, lift, attempt, undo, on_failure, map_error, guard, ◌>>=◌, finally, continue,
  on_result, on_option, change,
}
use csi_plugin.Grpc.{Error, Result, ok, err, Holds}

-- `m` keeps `P`, whether it succeeds or fails.
pub record Keeps {S A : Type 0} (P : S → Type 0) (m : OpOn S A) : Type 0 where
  pub at : (d : S) → P d → P (m d).1

module _ {S A : Type 0} {P : S → Type 0} where
  pub Keeps-pure : (a : A) → Keeps P (pure a)
  Keeps-pure a = record { at = λ d h. h }

  pub Keeps-raise : (e : Error) → Keeps P (raise {S = S} {A = A} e)
  Keeps-raise e = record { at = λ d h. h }

  pub Keeps-lift : (r : Result A) → Keeps P (lift r)
  Keeps-lift r = record { at = λ d h. h }

  pub Keeps-attempt : (m : OpOn S A) → Keeps P m → Keeps P (attempt m)
  Keeps-attempt m k = record { at = k.at }

  pub Keeps-map_error : (m : OpOn S A) (f : Error → Error) → Keeps P m → Keeps P (map_error m f)
  Keeps-map_error m f k = record { at = k.at }

  pub Keeps-if : (b : Bool) (m n : OpOn S A) → Keeps P m → Keeps P n → Keeps P (if b then m else n)
  Keeps-if true m n km kn = km
  Keeps-if false m n km kn = kn

module _ {S : Type 0} {P : S → Type 0} where
  pub Keeps-guard : (b : Bool) (e : Error) → Keeps P (guard b e)
  Keeps-guard true e = record { at = λ d h. h }
  Keeps-guard false e = record { at = λ d h. h }

module _ {S A B : Type 0} {P : S → Type 0} where
  Keeps-continue :
      (r : Result A) (f : A → OpOn S B)
      → ((a : A) → Keeps P (f a))
      → (d : S) → P d
      → P (continue r f d).1
  Keeps-continue (ok a) f k d h = (k a).at d h
  Keeps-continue (err e) f k d h = h

  pub Keeps-bind :
      (m : OpOn S A) (f : A → OpOn S B) → Keeps P m → ((a : A) → Keeps P (f a)) → Keeps P (m >>= f)
  unfolding ◌>>=◌
  Keeps-bind m f km kf = record { at = λ d h. Keeps-continue (m d).0 f kf (m d).1 (km.at d h) }

  -- Where the first operation is known to have kept `P` on this state only.
  pub Keeps-bind_at :
      (m : OpOn S A) (f : A → OpOn S B)
      → ((a : A) → Keeps P (f a))
      → (d : S) → P (m d).1
      → P ((m >>= f) d).1
  unfolding ◌>>=◌
  Keeps-bind_at m f kf d h = Keeps-continue (m d).0 f kf (m d).1 h

  pub Keeps-finally :
      (m : OpOn S A) (last : OpOn S B) → Keeps P m → Keeps P last → Keeps P (finally m last)
  unfolding finally
  Keeps-finally m last km kl = record { at = λ d h. kl.at (m d).1 (km.at d h) }

  Keeps-undo : (r : Result A) (last : OpOn S B) (d : S) → Keeps P last → P d → P (undo r last d).1
  Keeps-undo (ok a) last d kl h = h
  Keeps-undo (err e) last d kl h = kl.at d h

  pub Keeps-on_failure :
      (m : OpOn S A) (last : OpOn S B) → Keeps P m → Keeps P last → Keeps P (on_failure m last)
  unfolding on_failure
  Keeps-on_failure m last km kl = record {
    at = λ d h. Keeps-undo (m d).0 last (m d).1 kl (km.at d h);
  }

  pub Keeps-Option :
      (o : Option A) (m : OpOn S B) (f : A → OpOn S B)
      → Keeps P m
      → ((a : A) → Keeps P (f a))
      → Keeps P (on_option o m f)
  Keeps-Option none m f km kf = km
  Keeps-Option (some a) m f km kf = kf a

  pub Keeps-Result :
      (r : Result A) (f : A → OpOn S B) (g : Error → OpOn S B)
      → ((a : A) → Keeps P (f a))
      → ((e : Error) → Keeps P (g e))
      → Keeps P (on_result r f g)
  Keeps-Result (ok a) f g kf kg = kf a
  Keeps-Result (err e) f g kf kg = kg e

-- After a value that is known to satisfy `Q`, only for such values.
pub Keeps-lift_bind :
    {S A B : Type 0} {P : S → Type 0} (Q : A → Type 0) (r : Result A) (f : A → OpOn S B)
    → Holds Q r
    → ((a : A) → Q a → Keeps P (f a))
    → Keeps P (lift r >>= f)
unfolding ◌>>=◌
Keeps-lift_bind Q (ok a) f h k = record { at = (k a h).at }
Keeps-lift_bind Q (err e) f h k = record { at = λ d p. p }

-- Started where `P` holds, `m` ends where `Q` holds.
pub record Leads {S A : Type 0} (P Q : S → Type 0) (m : OpOn S A) : Type 0 where
  pub at : (d : S) → P d → Q (m d).1

pub Leads-attempt :
    {S A : Type 0} {P Q : S → Type 0} (m : OpOn S A) → Leads P Q m → Leads P Q (attempt m)
Leads-attempt m k = record { at = k.at }

module _ {S A : Type 0} {P Q : S → Type 0} (weaker : (d : S) → P d → Q d) where
  pub Leads-Keeps : (m : OpOn S A) → Keeps P m → Leads P Q m
  Leads-Keeps m k = record { at = λ d h. weaker (m d).1 (k.at d h) }

  pub Leads-if :
      (b : Bool) (m n : OpOn S A) → Leads P Q m → Leads P Q n → Leads P Q (if b then m else n)
  Leads-if true m n km kn = km
  Leads-if false m n km kn = kn

-- `Q` of the value of a success, `R` after a failure.
abbrev pub Outcome : {S A : Type 0} (Q : A → S → Type 0) (R : S → Type 0) → Result A → S → Type 0
Outcome Q R (ok a) s = Q a s
Outcome Q R (err e) s = R s

-- Started where `P` holds, `m` has that outcome.
pub record Returns {S A : Type 0} (P : S → Type 0) (Q : A → S → Type 0) (R : S → Type 0)
    (m : OpOn S A) : Type 0 where
  pub at : (d : S) → P d → Outcome Q R (m d).0 (m d).1

module _ {S A : Type 0} {P R : S → Type 0} {Q : A → S → Type 0} where
  pub Returns-map_error :
      (m : OpOn S A) (f : Error → Error) → Returns P Q R m → Returns P Q R (map_error m f)
  Returns-map_error m f k = record { at = λ d h. changed (m d).0 (m d).1 (k.at d h) }
    where
      changed : (r : Result A) (s : S) → Outcome Q R r s → Outcome Q R (change r f) s
      changed (ok a) s h = h
      changed (err e) s h = h

  -- What follows is only run on a success.
  pub Returns-bind :
      {B : Type 0} (m : OpOn S A) (f : A → OpOn S B) {V : B → S → Type 0}
      → Returns P Q R m
      → ((a : A) → Returns (Q a) V R (f a))
      → Returns P V R (m >>= f)
  unfolding ◌>>=◌
  Returns-bind m f {V} km kf = record { at = λ d h. next (m d).0 (m d).1 (km.at d h) }
    where
      next :
          (r : Result A) (s : S)
          → Outcome Q R r s
          → Outcome V R (continue r f s).0 (continue r f s).1
      next (ok a) s h = (kf a).at s h
      next (err e) s h = h

pub Returns-weaker :
    {S A : Type 0} {P R T : S → Type 0} {Q : A → S → Type 0} (weaker : (s : S) → R s → T s)
    (m : OpOn S A)
    → Returns P Q R m
    → Returns P Q T m
Returns-weaker {S = S} {A = A} {R = R} {T = T} {Q = Q} weaker m k = record {
  at = λ s p. ended (m s).0 (m s).1 (k.at s p);
}
  where
    ended : (r : Result A) (s : S) → Outcome Q R r s → Outcome Q T r s
    ended (ok a) s h = h
    ended (err e) s h = weaker s h

module _ {S A B : Type 0} {P R : S → Type 0} {Q : B → S → Type 0} where
  pub Returns-Option :
      (o : Option A) (m : OpOn S B) (f : A → OpOn S B)
      → Returns P Q R m
      → ((a : A) → Returns P Q R (f a))
      → Returns P Q R (on_option o m f)
  Returns-Option none m f km kf = km
  Returns-Option (some a) m f km kf = kf a

-- A first attempt, with another after a failure.
pub Returns-settled :
    {S A : Type 0} {Q : A → S → Type 0} {R T : S → Type 0} (r : Result A) (g : Error → OpOn S A)
    → ((e : Error) → Returns R Q T (g e))
    → Returns (Outcome Q R r) Q T (on_result r pure g)
Returns-settled (ok a) g k = record { at = λ s h. h }
Returns-settled (err e) g k = k e

module _ {S A : Type 0} {P R : S → Type 0} where
  pub Returns-Leads : (m : OpOn S A) → Leads P R m → Returns P (λ a. R) R m
  Returns-Leads m k = record { at = λ d h. either (m d).0 (m d).1 (k.at d h) }
    where
      either : (r : Result A) (s : S) → R s → Outcome (λ a. R) R r s
      either (ok a) s h = h
      either (err e) s h = h

  pub Leads-Returns : (m : OpOn S A) → Returns P (λ a. R) R m → Leads P R m
  Leads-Returns m k = record { at = λ d h. any (m d).0 (m d).1 (k.at d h) }
    where
      any : (r : Result A) (s : S) → Outcome (λ a. R) R r s → R s
      any (ok a) s h = h
      any (err e) s h = h

-- What is kept, as an outcome.
pub Keeps-Returns :
    {S A : Type 0} {P R : S → Type 0} (weaker : (s : S) → P s → R s) (m : OpOn S A)
    → Keeps P m
    → Returns P (λ _. P) R m
Keeps-Returns {S = S} {A = A} {P = P} {R = R} weaker m k = record {
  at = λ s p. ended (m s).0 (m s).1 (k.at s p);
}
  where
    ended : (r : Result A) (s : S) → P s → Outcome (λ _. P) R r s
    ended (ok a) s p = p
    ended (err e) s p = weaker s p

-- Under a test, with its outcome.
pub Leads-cases :
    {S A : Type 0} {P Q : S → Type 0} (b : Bool) (m n : OpOn S A)
    → (b ≡ true → Leads P Q m)
    → (b ≡ false → Leads P Q n)
    → Leads P Q (if b then m else n)
Leads-cases true m n km kn = km refl
Leads-cases false m n km kn = kn refl

module _ {S A B : Type 0} {R Q : S → Type 0} (weaker : (d : S) → R d → Q d) where
  Leads-continue :
      (r : Result A) (f : A → OpOn S B)
      → ((a : A) → Leads R Q (f a))
      → (d : S) → R d
      → Q (continue r f d).1
  Leads-continue (ok a) f k d h = (k a).at d h
  Leads-continue (err e) f k d h = weaker d h

  pub Leads-then :
      {P : S → Type 0} (m : OpOn S A) (f : A → OpOn S B)
      → Leads P R m
      → ((a : A) → Leads R Q (f a))
      → Leads P Q (m >>= f)
  unfolding ◌>>=◌
  Leads-then m f km kf = record { at = λ d h. Leads-continue (m d).0 f kf (m d).1 (km.at d h) }

module _ {S A B : Type 0} {P Q : S → Type 0} (weaker : (d : S) → P d → Q d) where
  pub Leads-bind :
      (m : OpOn S A) (f : A → OpOn S B)
      → Keeps P m
      → ((a : A) → Leads P Q (f a))
      → Leads P Q (m >>= f)
  Leads-bind m f km kf = Leads-then weaker m f (record { at = km.at }) kf

  pub Leads-Option :
      (o : Option A) (m : OpOn S B) (f : A → OpOn S B)
      → Leads P Q m
      → ((a : A) → Leads P Q (f a))
      → Leads P Q (on_option o m f)
  Leads-Option none m f km kf = km
  Leads-Option (some a) m f km kf = kf a

  pub Leads-Result :
      (r : Result A) (f : A → OpOn S B) (g : Error → OpOn S B)
      → ((a : A) → Leads P Q (f a))
      → ((e : Error) → Leads P Q (g e))
      → Leads P Q (on_result r f g)
  Leads-Result (ok a) f g kf kg = kf a
  Leads-Result (err e) f g kf kg = kg e

pub ruleset op_rules = (
  Keeps-pure, Keeps-raise, Keeps-lift, Keeps-attempt, Keeps-map_error, Keeps-if, Keeps-guard,
  Keeps-bind, Keeps-finally, Keeps-on_failure, Keeps-Option, Keeps-Result,
)
