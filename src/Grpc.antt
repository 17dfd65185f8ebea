-- ===== src/Grpc.antt =====
-- The results of the driver's functions: a value, or an error that is a gRPC status or a plain Go
-- error (which gRPC reports with the code Unknown). A message is the format string of the source
-- without its arguments, but for `"%s", err.Error()`, which passes a text on.
use csi_plugin.Base.{String, ◌<>◌, ◌≡◌, Bool, true, false}
use mathlib.Core.Path.{subst}

pub data Code : Type 0 where
  unknown invalid_argument not_found already_exists failed_precondition aborted out_of_range : Code
  unimplemented internal unavailable permission_denied deadline_exceeded : Code

pub data Error : Type 0 where
  status : Code → String → Error
  plain : String → Error

abbrev pub code_name : Code → String
code_name unknown = "Unknown"
code_name invalid_argument = "InvalidArgument"
code_name not_found = "NotFound"
code_name already_exists = "AlreadyExists"
code_name failed_precondition = "FailedPrecondition"
code_name aborted = "Aborted"
code_name out_of_range = "OutOfRange"
code_name unimplemented = "Unimplemented"
code_name internal = "Internal"
code_name unavailable = "Unavailable"
code_name permission_denied = "PermissionDenied"
code_name deadline_exceeded = "DeadlineExceeded"

-- err.Error()
unfoldable pub text : Error → String
text (status c m) = "rpc error: code = " <> code_name c <> " desc = " <> m
text (plain m) = m

-- The code with which gRPC answers.
abbrev pub code_of : Error → Code
code_of (status c m) = c
code_of (plain m) = unknown

-- hsError: a status that the Hammerspace client chose is kept, anything else is Internal.
unfoldable pub hs_error : Error → Error
hs_error (status c m) = status c m
hs_error (plain m) = status internal m

-- What a Go function returns: its error, or else its value.
pub data Result {ℓ} (A : Type ℓ) : Type ℓ where
  err : Error → Result A
  ok : A → Result A

-- An early `return nil, e` under the test.
abbrev pub guard : Bool → Error → Result (Unit {0})
guard true e = err e
guard false e = ok tt

infixl 5 ◌>>=◌ ◌>>◌
abbrev pub ◌>>=◌ {ℓ} : {A B : Type ℓ} → Result A → (A → Result B) → Result B
err problem >>= next = err problem
ok value >>= next = next value

abbrev pub ◌>>◌ : {B : Type 0} → Result (Unit {0}) → Result B → Result B
checked >> next = checked >>= λ _. next

-- A call whose error is dropped, and only its value used.
abbrev pub value_or {ℓ} : {A : Type ℓ} → A → Result A → A
value_or a (ok b) = b
value_or a (err e) = a

-- What holds of a successful result.
abbrev pub Holds {ℓ κ} : {A : Type ℓ} → (A → Type κ) → Result A → Type κ
Holds P (ok a) = P a
Holds P (err e) = Unit

module _ {ℓ κ} {A B : Type ℓ} (P : A → Type κ) (Q : B → Type κ) where
  pub Holds-bind :
      (m : Result A) (f : A → Result B)
      → Holds P m
      → ((a : A) → P a → Holds Q (f a))
      → Holds Q (m >>= f)
  Holds-bind (ok a) f h k = k a h
  Holds-bind (err e) f h k = tt

module _ {ℓ κ} {A : Type ℓ} (P : A → Type κ) where
  pub Holds-ok : (m : Result A) {a : A} → Holds P m → m ≡ ok a → P a
  Holds-ok m h e = subst (Holds P) e h

pub Holds-any {ℓ} : {A : Type ℓ} (m : Result A) → Holds (λ _. Unit {0}) m
Holds-any (ok a) = tt
Holds-any (err e) = tt

-- What holds of the error of a failed result.
abbrev pub Fails {ℓ κ} : {A : Type ℓ} → (Error → Type κ) → Result A → Type κ
Fails P (ok a) = Unit
Fails P (err e) = P e

module _ {ℓ κ} {A B : Type ℓ} (P : Error → Type κ) where
  pub Fails-bind :
      (m : Result A) (f : A → Result B) → Fails P m → ((a : A) → Fails P (f a)) → Fails P (m >>= f)
  Fails-bind (ok a) f h k = k a
  Fails-bind (err e) f h k = h

module _ {ℓ κ} {A : Type ℓ} (P : Error → Type κ) where
  pub Fails-err : (m : Result A) {e : Error} → Fails P m → m ≡ err e → P e
  Fails-err m h e = subst (Fails P) e h
