-- ===== src/Main/Laws.antt =====
-- What the version of CSI that the environment asks for decides.
use csi_plugin.Base.{
  String, ◌==◌, ◌≡◌, refl, Bool, true, false, not, ◌&&◌, Option, none, some, is_some, arith,
  if◌then◌else◌,
}
use csi_plugin.Base.Text.{parse_bool}
use csi_plugin.Grpc.{Holds, Error, Result, ok, err, guard, ◌>>◌}
use csi_plugin.Main.{
  Environment, Url, is_https_url, error_is_set, check_variables, validate_environment_vars, Started,
  server_for, main,
}

abbrev pub with_version : String → Environment → Environment
with_version version env = record env { csi_major_version = version }

is_some-is_https_url : (u : Option Url) → not (is_https_url u) ≡ false → not (is_some u) ≡ false
unfolding is_https_url
is_some-is_https_url none h = cc
is_some-is_https_url (some url) h = refl

one_of_two : (b c d : Bool) → c ≡ false → (b && d) ≡ false → (if b then d else c) ≡ false
one_of_two true c d h k = k
one_of_two false c d h k = h

-- The error of an earlier step has already ended the program.
error_was_handled :
    (parse_url : String → Option Url) (env : Environment)
    → not (is_https_url (parse_url env.hs_endpoint)) ≡ false
    → (not (env.hs_tls_verify == "") && not (is_some (parse_bool env.hs_tls_verify))) ≡ false
    → error_is_set parse_url env ≡ false
unfolding error_is_set
error_was_handled parse_url env h k =
    one_of_two (not (env.hs_tls_verify == "")) (not (is_some (parse_url env.hs_endpoint)))
      (not (is_some (parse_bool env.hs_tls_verify)))
      (is_some-is_https_url (parse_url env.hs_endpoint) h) k

never_refused : (b c : Bool) (e : Error) → c ≡ false → guard (b && c) e ≡ ok tt
never_refused b true e h = cc
never_refused true false e h = refl
never_refused false false e h = refl

check_variables-Holds :
    (parse_url : String → Option Url) (env : Environment)
    → Holds (λ _. error_is_set parse_url env ≡ false) (check_variables parse_url env)
unfolding check_variables
check_variables-Holds parse_url env = ground (arith, error_was_handled parse_url env)

-- The start with another version: nothing else differs but the server.
abbrev pub served_as : String → Result Started → Result Started
served_as version (ok s) = ok (record s { server = server_for version })
served_as version (err e) = err e

checked_version :
    (a b c : Bool) (e : Error) (r : Result (Unit {0})) (v : String) (s : Started)
    → Holds (λ _. c ≡ false) r
    → ((r >> guard (a && c) e) >> ok (record s { server = server_for v }))
      ≡ served_as v ((r >> guard (b && c) e) >> ok s)
checked_version a b c e (err problem) v s h = refl
checked_version a b c e (ok _) v s h = rw (never_refused a c e h, never_refused b c e h) refl

-- The start never depends on CSI_MAJOR_VERSION but for the server, which is the service for version 0.3
-- where the variable is "0" and the driver itself for any other text: no text is refused, though the
-- code has a message for those that are neither "0" nor "1".
pub main-any_version :
    (parse_url : String → Option Url) (version : String) (env : Environment)
    → main parse_url (with_version version env) ≡ served_as version (main parse_url env)
unfolding main validate_environment_vars check_variables error_is_set
main-any_version parse_url version env =
    checked_version _ _ (error_is_set parse_url env) _ (check_variables parse_url env) version _
      (check_variables-Holds parse_url env)
