-- ===== src/Operator/Reconcile.antt =====
-- Reconciler.Reconcile and cleanup of operator/internal/operator/reconcile.go.
pub mod Trace
pub mod Invariant
pub mod Operands
pub mod Removal
pub mod Safety
pub mod Passes
pub mod Order
use csi_plugin.Base.{
  String, ◌<>◌, ◌==◌, Bool, true, false, not, ◌&&◌, ◌||◌, Option, none, some, List, [], ◌∷◌, ◌++◌,
  if◌then◌else◌,
}
use csi_plugin.Base.Dict.{Dict, lookup}
use csi_plugin.Effect.{
  pure, raise, lift, attempt, guard, on_result, on_option, map_error, ◌>>=◌, ◌>>◌,
}
use csi_plugin.Grpc.{Error, Result, ok, err, plain, text}
use csi_plugin.Params.{value_or_empty}
use csi_plugin.Operator.{
  Api, Op, Cr, Spec, Secret, Live, Operand, Answer, found, missing, failed, Request, request,
  get_driver, get_secret, delete_object, update_driver, owned_by, workload, of_class, has_finalizer,
  finalizer,
}
use csi_plugin.Operator.Apply.{ask, or_error, not_found, apply_all}
use csi_plugin.Operator.Conditions.{condition}
use csi_plugin.Operator.Parse.{parse_spec}
use csi_plugin.Operator.Render.{render}
use csi_plugin.Operator.Workload.{workload_ready, workload_failure}

-- Whether a key of the Secret decodes to some bytes.
abbrev decodes : Option String → Bool
decodes none = false
decodes (some s) = not (s == "")

-- sort.SliceStable with the workloads after all others.
unfoldable pub only : Bool → List Operand → List Operand
only b [] = []
only b (o ∷ l) =
    let rest = only b l in
    if (workload o.kind && b) || (not (workload o.kind) && not b) then o ∷ rest else rest

unfoldable pub workloads_last : List Operand → List Operand
workloads_last l = only false l ++ only true l

unfoldable pub without_finalizer : List String → List String
without_finalizer [] = []
without_finalizer (f ∷ l) =
    let rest = without_finalizer l in if f == finalizer then rest else f ∷ rest

-- r.namespace()
abbrev pub namespace_of : String → String
namespace_of namespace = if namespace == "" then "hammerspace-csi" else namespace

module _ (w : Api) (images : Dict String) (namespace : String) where
  unfoldable pub has_keys : Secret → List String → Bool
  has_keys secret [] = true
  has_keys secret (k ∷ l) =
      decodes (w.decode_base64 (value_or_empty (lookup k secret.values))) && has_keys secret l

  abbrev pub found_conflict : Cr → Answer Live → Op Bool → Op Bool
  found_conflict cr missing rest = rest
  found_conflict cr (failed e) rest = raise e
  found_conflict cr (found current) rest =
      if not (owned_by current.owners cr) then pure true else rest

  -- Whether another's object has the name of one to render.
  unfoldable pub any_conflict : Cr → List Operand → Op Bool
  any_conflict cr [] = pure false
  any_conflict cr (o ∷ l) = do answer ← ask w o; found_conflict cr answer (any_conflict cr l)

  unfoldable pub protect : Cr → Op Cr
  protect cr = if has_finalizer cr then pure cr else do
    let protected = record cr { finalizers = cr.finalizers ++ finalizer ∷ [] }
    request (update_driver protected) (λ h. w.update_driver h protected)

  -- Goes on with `rest` where the object needs no report, and with `pending` where it is a workload that
  -- is still starting.
  unfoldable pub report_one : Cr → Operand → Op (Unit {0}) → Op (Unit {0}) → Op (Unit {0})
  report_one cr o rest pending = if not (workload o.kind) then rest else do
    answer ← ask w o
    current ← lift (or_error answer)
    if workload_ready current then rest else do
      failure ← workload_failure w current
      if not (failure == "")
          then condition w images cr false false "WorkloadFailing" failure
          else pending

  -- `ready` is whether every workload before is ready.
  unfoldable pub report : Cr → Bool → List Operand → Op (Unit {0})
  report cr true [] =
      condition w images cr true false "Ready" "Controller and node workloads are ready"
  report cr false [] =
      condition w images cr false true "RollingOut" "Waiting for controller and node workloads"
  report cr ready (o ∷ l) = report_one cr o (report cr ready l) (report cr false l)

  abbrev pub unreconciled : Cr → Error → Op (Unit {0})
  unreconciled cr e = do
    condition w images cr false false "ReconcileFailed"
        "An operand could not be reconciled; inspect Operator logs and cluster events"
    raise e

  unfoldable pub roll_out : Cr → List Operand → Op (Unit {0})
  roll_out cr desired = do
    protected ← protect cr
    let ordered = workloads_last desired
    applied ← attempt (apply_all w protected ordered)
    on_result applied (λ _. report protected true ordered) (unreconciled protected)

  unfoldable pub with_credentials : Cr → Spec → Secret → Op (Unit {0})
  with_credentials cr spec secret = do
    desired ← lift (
        render w cr spec images (secret.uid <> "/" <> secret.resource_version)
          (namespace_of namespace))
    conflict ← any_conflict cr desired
    if conflict
        then condition w images cr false false "OwnershipConflict"
            "%s %s already exists without this Operator's ownership"
        else roll_out cr desired

  unfoldable pub with_secret : Cr → Spec → Secret → Op (Unit {0})
  with_secret cr spec secret =
      if has_keys secret ("username" ∷ "password" ∷ "endpoint" ∷ [])
      then with_credentials cr spec secret
      else condition w images cr false false "InvalidCredentials"
          "The Secret must contain nonempty username, password and endpoint keys"

  unfoldable pub reconcile_spec : Cr → Spec → Op (Unit {0})
  reconcile_spec cr spec = do
    let name = spec.credentials_secret_name
    secret ← attempt (request (get_secret name) (λ h. w.secret h name))
    on_result secret (with_secret cr spec) λ e.
        condition w images cr false false "CredentialsUnavailable"
          "Cannot read the referenced credentials Secret"

  -- A deletion of an object that is gone is none.
  abbrev pub unless_gone : Result (Unit {0}) → Op (Unit {0})
  unless_gone (ok _) = pure tt
  unless_gone (err e) = if w.is_not_found e then pure tt else raise e

  unfoldable pub remove : Operand → Live → Op (Unit {0})
  remove o current = if current.deleting then pure tt else do
    removed ← attempt (request (delete_object o current.uid) (λ h. w.delete h o current.uid))
    unless_gone removed

  unfoldable pub remove_found : Cr → Operand → Answer Live → Op Bool
  remove_found cr o missing = pure false
  remove_found cr o (failed e) = raise e
  remove_found cr o (found current) =
      if not (owned_by current.owners cr) then pure false else do remove o current; pure true

  -- One pass over the objects, with whether any is still there.
  unfoldable pub remove_all : Cr → List Operand → Op Bool
  remove_all cr [] = pure false
  remove_all cr (o ∷ l) = do
    answer ← ask w o
    pending ← remove_found cr o answer
    rest ← remove_all cr l
    pure (pending || rest)

  unfoldable pub removing : Cr → Op (Unit {0})
  removing cr =
      condition w images cr false true "Removing"
        "Removing Operator-owned resources; persistent data is retained"

  unfoldable pub release : Cr → Op (Unit {0})
  release cr = do
    let released = record cr { finalizers = without_finalizer cr.finalizers }
    request (update_driver released) (λ h. w.update_driver h released)
    pure tt

  -- The workloads go first; the rest only once none is left.
  unfoldable pub remove_rendered : Cr → List Operand → Op (Unit {0})
  remove_rendered cr objects = do
    workloads_left ← remove_all cr (only true objects)
    if workloads_left then removing cr else do
      others_left ← remove_all cr (only false objects)
      if others_left then removing cr else release cr

  unfoldable pub cleanup : Cr → Spec → Op (Unit {0})
  cleanup cr spec = if not (has_finalizer cr) then pure tt else do
    objects ← lift (render w cr spec images "" (namespace_of namespace))
    remove_rendered cr objects

  unfoldable pub reconcile_found : Answer Cr → Op (Unit {0})
  reconcile_found missing = pure tt
  reconcile_found (failed e) = raise e
  reconcile_found (found cr) =
      let (spec, parsed) = parse_spec w cr in
      if cr.deleting
      then cleanup cr spec
      else on_result parsed (λ _. reconcile_spec cr spec)
          λ e. condition w images cr false false "InvalidConfiguration" (text e)

  unfoldable pub reconcile : Op (Unit {0})
  reconcile = do answer ← request get_driver (λ h. ok (w.driver h)); reconcile_found answer
