-- ===== src/Effect.antt =====
-- Operations on a state that may fail: what an operation did before it failed stays done. The driver's
-- handlers run on the state of Driver, and the requests of the Hammerspace client on that of Client.
pub mod Keeps
use csi_plugin.Base.{Bool, Option, none, some, List, ◌∷◌}
use csi_plugin.Grpc.{Error, Result, ok, err}

abbrev pub OpOn : Type 0 → Type 0 → Type 0
OpOn S A = S → Result A × S

module _ {S A : Type 0} where
  abbrev pub pure : A → OpOn S A
  pure a s = (ok a, s)

  abbrev pub raise : Error → OpOn S A
  raise e s = (err e, s)

  abbrev pub lift : Result A → OpOn S A
  lift r s = (r, s)

  -- The result and the error both, for a call whose error is not returned.
  abbrev pub attempt : OpOn S A → OpOn S (Result A)
  attempt m s = let (r, s') = m s in (ok r, s')

module _ {S A B : Type 0} where
  abbrev pub continue : Result A → (A → OpOn S B) → OpOn S B
  continue (ok a) f s = f a s
  continue (err e) f s = (err e, s)

  infixl 5 ◌>>=◌ ◌>>◌
  unfoldable pub ◌>>=◌ : OpOn S A → (A → OpOn S B) → OpOn S B
  ◌>>=◌ m f s = let (r, s') = m s in continue r f s'

  abbrev pub ◌>>◌ : OpOn S A → OpOn S B → OpOn S B
  m >> n = m >>= λ _. n

  -- What follows a call whose error the function looks at itself.
  abbrev pub on_result : Result A → (A → OpOn S B) → (Error → OpOn S B) → OpOn S B
  on_result (ok a) f g = f a
  on_result (err e) f g = g e

  abbrev pub on_option : Option A → OpOn S B → (A → OpOn S B) → OpOn S B
  on_option none m f = m
  on_option (some a) m f = f a

  -- The first operation, and then the second whether that failed or not: Go's `defer`.
  unfoldable pub finally : OpOn S A → OpOn S B → OpOn S A
  finally m last s = let (r, s') = m s in let (_, s'') = last s' in (r, s'')

abbrev pub change : {A : Type 0} → Result A → (Error → Error) → Result A
change (ok a) f = ok a
change (err e) f = err (f e)

module _ {S A : Type 0} where
  -- The second operation only if the first failed, whose error stays.
  abbrev pub undo : {B : Type 0} → Result A → OpOn S B → S → Result A × S
  undo (ok a) last s = (ok a, s)
  undo (err e) last s = (err e, (last s).1)

  unfoldable pub on_failure : {B : Type 0} → OpOn S A → OpOn S B → OpOn S A
  on_failure {B} m last s = let (r, s') = m s in undo r last s'

  -- Another error in place of that of the operation.
  abbrev pub map_error : OpOn S A → (Error → Error) → OpOn S A
  map_error m f s = let (r, s') = m s in (change r f, s')

-- An early `return nil, e` under the test.
abbrev pub guard : {S : Type 0} → Bool → Error → OpOn S (Unit {0})
guard Bool.true e = raise e
guard Bool.false e = pure tt

-- A request whose answer depends on those before it; the state is the requests so far, newest first.
abbrev pub request : {C A : Type 0} → C → (List C → Result A) → OpOn (List C) A
request c answer h = (answer h, c ∷ h)
