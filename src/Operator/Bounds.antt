-- ===== src/Operator/Bounds.antt =====
-- How many requests it takes to bring one operand up to date.
use csi_plugin.Base.{ℕ, zero, suc, ◌+◌, ◌*◌, ◌≤◌, [], ◌∷◌, arith}
use csi_plugin.Effect.Keeps.{
  Keeps-lift, Keeps-pure, Keeps-raise, Keeps-guard, Leads, Leads-attempt, Leads-Keeps, Leads-bind,
  Leads-then, Leads-Option, Leads-Result,
}
use csi_plugin.Grpc.{Result}
use csi_plugin.Operator.{
  Api, Cr, Live, Operand, Answer, found, missing, failed, Request, Requests, request,
}
use csi_plugin.Operator.Apply.{upgrade_managed_fields, apply_to, apply}

-- How many requests there are.
unfoldable pub requests : Requests → ℕ
requests [] = 0
requests (r ∷ h) = suc (requests h)

abbrev AtMost : ℕ → Requests → Type 0
AtMost n h = requests h ≤ n

one_more :
    {A : Type 0} (n m : ℕ) (r : Request) (answer : Requests → Result A)
    → n + 1 ≤ m
    → Leads (AtMost n) (AtMost m) (request r answer)
unfolding requests
one_more n m r answer l = record { at = λ h p. omega arith }

module _ (w : Api) where
  upgrade-AtMost :
      (left n m : ℕ) (o : Operand) (current : Live)
      → n + (2 * left + 1) ≤ m
      → Leads (AtMost n) (AtMost m) (upgrade_managed_fields w left o current)
  unfolding upgrade_managed_fields
  upgrade-AtMost zero n m o current l =
      Leads-bind (λ h p. omega arith) _ _ (Keeps-lift _)
        λ patch.
          Leads-Option (λ h p. omega arith) patch _ _
            (Leads-Keeps (λ h p. omega arith) _ (Keeps-pure current))
            λ p. one_more n m _ _ (omega arith)
  upgrade-AtMost (suc left) n m o current l =
      Leads-bind (λ h p. omega arith) _ _ (Keeps-lift _)
        λ patch.
          Leads-Option (λ h p. omega arith) patch _ _
            (Leads-Keeps (λ h p. omega arith) _ (Keeps-pure current))
            λ p.
              Leads-then {R = AtMost (n + 1)} (λ h p. omega arith) _ _
                (Leads-attempt _ (one_more n (n + 1) _ _ (omega arith)))
                λ upgraded.
                  Leads-Result (λ h p. omega arith) upgraded _ _
                    (λ u. Leads-Keeps (λ h p. omega arith) _ (Keeps-pure u))
                    λ e.
                      Leads-then (λ h p. omega arith) _ _
                        (one_more (n + 1) (n + 2) _ _ (omega arith))
                        λ again. upgrade-AtMost left (n + 2) m o again (omega arith)

  apply_to-AtMost :
      (cr : Cr) (o : Operand) (n m : ℕ) (a : Answer Live)
      → n + 6 ≤ m
      → Leads (AtMost n) (AtMost m) (apply_to w cr o a)
  unfolding apply_to
  apply_to-AtMost cr o n m missing l = one_more n _ _ _ (omega arith)
  apply_to-AtMost cr o n m (failed e) l = Leads-Keeps (λ h p. omega arith) _ (Keeps-raise e)
  apply_to-AtMost cr o n m (found current) l =
      Leads-bind (λ h p. omega arith) _ _ (Keeps-guard _ _)
        λ _.
          Leads-then (λ h p. omega arith) _ _ (upgrade-AtMost 2 n (n + 5) o current (omega arith))
            λ upgraded. one_more (n + 5) _ _ _ (omega arith)

  -- An operand is brought up to date with at most seven requests, however often its patches are lost.
  apply-AtMost :
      (cr : Cr) (o : Operand) (h : Requests) → requests (apply w cr o h).1 ≤ requests h + 7
  unfolding apply
  apply-AtMost cr o h =
      (Leads-then {R = AtMost (requests h + 1)} {Q = AtMost (requests h + 7)} (λ t p. omega arith) _
          _ (one_more (requests h) _ _ _ (omega arith))
          λ a. apply_to-AtMost cr o (requests h + 1) _ a (omega arith)).at
        h (omega arith)
