-- ===== src/Operator/Apply.antt =====
-- Reconciler.apply and upgradeManagedFields of operator/internal/operator/reconcile.go.
use csi_plugin.Base.{ℕ, zero, suc, not, List, [], ◌∷◌}
use csi_plugin.Effect.{pure, raise, lift, attempt, guard, on_result, on_option, ◌>>=◌, ◌>>◌}
use csi_plugin.Grpc.{Error, Result, ok, err, plain}
use csi_plugin.Operator.{
  Api, Op, Cr, Live, Operand, Answer, found, missing, failed, request, get_object, create_object,
  patch_managed_fields, apply_object, owned_by,
}

abbrev pub not_found : Error
not_found = plain "not found"

-- What a Get returns where its caller does not tell IsNotFound from other errors.
abbrev pub or_error : {A : Type 0} → Answer A → Result A
or_error (found a) = ok a
or_error missing = err not_found
or_error (failed e) = err e

module _ (w : Api) where
  abbrev pub ask : Operand → Op (Answer Live)
  ask o = request (get_object o) (λ h. ok (w.object h o))

  abbrev pub ask_again : Operand → Op Live
  ask_again o = request (get_object o) (λ h. or_error (w.object h o))

  -- `left` attempts follow this one. The patch is lost to a status update at times; then the object is
  -- read again.
  unfoldable pub upgrade_managed_fields : ℕ → Operand → Live → Op Live
  upgrade_managed_fields zero o current = do
    patch ← lift (w.upgrade_patch current)
    on_option patch (pure current)
        λ p. request (patch_managed_fields current) (λ h. w.patch_managed_fields h current)
  upgrade_managed_fields (suc left) o current = do
    patch ← lift (w.upgrade_patch current)
    on_option patch (pure current) λ p. do
      upgraded ←
          attempt (request (patch_managed_fields current) (λ h. w.patch_managed_fields h current))
      on_result upgraded pure λ e. do again ← ask_again o; upgrade_managed_fields left o again

  abbrev pub changed_owner : Error
  changed_owner = plain "ownership changed for %s %s"

  unfoldable pub apply_to : Cr → Operand → Answer Live → Op (Unit {0})
  apply_to cr o missing = request (create_object o) (λ h. w.create h o)
  apply_to cr o (failed e) = raise e
  apply_to cr o (found current) = do
    guard (not (owned_by current.owners cr)) changed_owner
    upgraded ← upgrade_managed_fields 2 o current
    request (apply_object o upgraded.uid) (λ h. w.apply h o upgraded.uid)

  unfoldable pub apply : Cr → Operand → Op (Unit {0})
  apply cr o = do answer ← ask o; apply_to cr o answer

  unfoldable pub apply_all : Cr → List Operand → Op (Unit {0})
  apply_all cr [] = pure tt
  apply_all cr (o ∷ l) = do apply cr o; apply_all cr l
