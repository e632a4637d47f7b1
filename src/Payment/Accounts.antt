-- ===== src/Payment/Accounts.antt =====
-- A customer's accounts are never the account of captured payments.
use Prim.Native.Char.{Char, code}
use Prim.Native.String.append as append_clauses
use Prim.Native.String.{◌∷◌}
use text.Mathlib.TextLemmas.{head-eq_of_cons-eq}
use ix_gateway.Prelude.{
  String, ◌≡◌, ◌≢◌, sym, ap, ◌∙◌, false, Option, ◌==◌, eq_iff, arith, Bool-cases, inl, inr,
}
use ix_gateway.Prelude.Text.{concat, or_default}
use ix_gateway.Payment.{customer_pending, customer_account, payments_captured}

differs_at_head :
    (c d : Char) (s t u : String) → code c ≢ code d → (concat (c ∷ s) t == (d ∷ u)) ≡ false
differs_at_head c d s t u h = elim (Bool-cases (concat (c ∷ s) t == (d ∷ u))) [
  | inr other ↦ other
  | inl same ↦ absurd (
      h (
        ap code (
          head-eq_of_cons-eq
            (sym (append_clauses.cons c s t) ∙ (eq_iff (concat (c ∷ s) t) (d ∷ u)).0 same))))
]

pub customer_pending-ne : (c : Option String) → (customer_pending c == payments_captured) ≡ false
unfolding customer_pending
customer_pending-ne c =
    differs_at_head "c" "p" "ustomer_pending:" (or_default c "anon") "ayments_captured"
      (omega arith)

pub customer_account-ne : (c : Option String) → (customer_account c == payments_captured) ≡ false
unfolding customer_account
customer_account-ne c =
    differs_at_head "c" "p" "ustomer:" (or_default c "anon") "ayments_captured" (omega arith)
