-- ===== src/Reconciliation/NoDrift.antt =====
-- On consistent books the self-check reports no drift.
use ix_gateway.Prelude.{
  ℕ, Bool, ◌&&◌, List, [], ◌∷◌, ◌≡◌, refl, ◌∙◌, ap, select, length, All, ◌==◌, Bool-cases, inl, inr,
  arith,
}
use ix_gateway.Prelude.Int.{ℤ, pos, ◌-ℤ◌, ◌≤ℤ◌, eqb_ℤ_refl, int_laws}
use ix_gateway.Models.{PaymentIntent, LedgerEntry, is_succeeded}
use ix_gateway.Db.{Session, ok}
use ix_gateway.Ledger.{is_value, list_entries_for_intent, order_by_time, sum_signed}
use ix_gateway.Ledger.Sums.{net-order_by_time}
use ix_gateway.Payment.{payments_captured}
use ix_gateway.Payment.Books.{IsSettled, captured}
use ix_gateway.Payment.Safe.{Holds}
use ix_gateway.Reconciliation.{
  recent, recent_report, expected_captured, captured_of, walk, reconcile_recent,
}
use ix_gateway.Db.{session_scope}

select-select :
    {A : Type 0} (p q : A → Bool) (xs : List A)
    → select q (select p xs) ≡ select (λ x. p x && q x) xs
select-select p q [] = refl
select-select p q (x ∷ xs) = ground (arith, select-select p q xs)

All-select :
    {A : Type 0} (P : A → Type 0) (p : A → Bool) (xs : List A) → All P xs → All P (select p xs)
All-select P p [] h = tt
All-select P p (x ∷ xs) (y, h) = elim (Bool-cases (p x)) [
  | inl in_it ↦ rw in_it (y, All-select P p xs h)
  | inr out ↦ rw out (All-select P p xs h)
]

-- What the check reads is the captured position of the books.
captured_of-eq-captured :
    (p : PaymentIntent) (es : List LedgerEntry)
    → captured_of (order_by_time (select (λ e. is_value e.payment_intent_id p.id) es))
      ≡ captured p.id es
unfolding captured_of
captured_of-eq-captured p es =
    net-order_by_time (λ e. e.account == payments_captured)
      (select (λ e. is_value e.payment_intent_id p.id) es)
    ∙ ap sum_signed (
        select-select (λ (e : LedgerEntry). is_value e.payment_intent_id p.id)
          (λ e. e.account == payments_captured) es)

nothing_received : (c r f : ℤ) → c ≡ r -ℤ f → pos 0 ≤ℤ f → f ≤ℤ r → r ≡ pos 0 → c ≡ pos 0
nothing_received c r f a l m e = grind int_laws

captured-expected :
    (p : PaymentIntent) (es : List LedgerEntry)
    → IsSettled es p
    → captured p.id es ≡ expected_captured p
unfolding expected_captured
captured-expected p es (c, l, m, inl paid) = rw paid c
captured-expected p es (c, l, m, inr unpaid) = elim (Bool-cases (is_succeeded p.status)) [
  | inl paid ↦ rw paid c
  | inr open_intent ↦
      rw open_intent
        (nothing_received (captured p.id es) p.amount_received p.amount_refunded c l m unpaid)
]

walk_clean :
    (ps : List PaymentIntent) (s : Session)
    → All (IsSettled s.db.ledger_entries) ps
    → walk ps s ≡ (ok [], s)
unfolding walk list_entries_for_intent
walk_clean [] s h = refl
walk_clean (p ∷ ps) s (x, h) =
    rw
      (
        walk_clean ps s h,
        captured_of-eq-captured p s.db.ledger_entries,
        captured-expected p s.db.ledger_entries x,
        eqb_ℤ_refl (expected_captured p),
      )
      refl

recent_report_clean :
    (window : ℕ) (s : Session)
    → Holds s.db
    → recent_report window s ≡ (ok (record { checked = length (recent window s); drift = [] }), s)
unfolding recent_report
recent_report_clean window s h =
    rw
      (walk_clean (recent window s) s
        (All-select (IsSettled s.db.ledger_entries) _ s.db.payment_intents h.settled))
      refl

-- On consistent books `reconcile_recent` returns, whatever its window, with an empty drift list and
-- the number of the intents that are as young as the window.
pub reconcile_recent_clean :
    (window : ℕ) (s : Session)
    → Holds s.db
    → (reconcile_recent window s).0 ≡ ok (record { checked = length (recent window s); drift = [] })
unfolding reconcile_recent session_scope
reconcile_recent_clean window s h = rw (recent_report_clean window s h) refl

-- It writes nothing.
pub reconcile_recent_session :
    (window : ℕ) (s : Session)
    → Holds s.db
    → (reconcile_recent window s).1 ≡ record s { committed = s.db }
unfolding reconcile_recent session_scope
reconcile_recent_session window s h = rw (recent_report_clean window s h) refl
