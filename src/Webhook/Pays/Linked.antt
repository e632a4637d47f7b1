-- ===== src/Webhook/Pays/Linked.antt =====
-- The checkout sessions that are linked to a paid intent are completed.
use ix_gateway.Db.Query.{Row-select}
use ix_gateway.Prelude.{
  String, true, none, some, List, [], ◌∷◌, ◌≡◌, refl, find, select, All, Row, inl, inr, Bool-cases,
  ⊤, ◌==◌, eq_refl, length, ap, ◌≤◌, arith,
}
use ix_gateway.Models.{PaymentIntent, CheckoutSession}
use ix_gateway.Db.{Session, Result, ok, raised, pure, scalar_one_or_none, ◌>>=◌, ◌>>◌, continue}
use ix_gateway.Ledger.{is_value}
use ix_gateway.Checkout.{find_by_payment_intent, complete_session, is_completed}
use ix_gateway.Checkout.Outcome.{row_of, Completes, complete_session-Completes}
use ix_gateway.Webhook.{complete_linked}

-- The checkout sessions of an intent.
abbrev pub linked : String → Session → List CheckoutSession
linked pid s = select (λ c. is_value c.payment_intent_id pid) s.db.checkout_sessions

abbrev pub IsCompletedIn : Session → CheckoutSession → Type 0
IsCompletedIn t c =
    (now : CheckoutSession) × (row_of c.id t ≡ some now) × (is_completed now.status ≡ true)

-- Ends of `complete_linked` that leave intents, entries and events alone, with the sessions completed.
abbrev pub Links : String → Session → Result ⊤ × Session → Type 0
Links pid s (raised _, t) = ⊥
Links pid s (ok _, t) =
    (t.db.payment_intents ≡ s.db.payment_intents)
    × (t.db.ledger_entries ≡ s.db.ledger_entries)
    × (t.db.webhook_events ≡ s.db.webhook_events)
    × All (IsCompletedIn t) (linked pid s)

found_Row :
    (c : CheckoutSession) (cs : List CheckoutSession)
    → Row c cs
    → find (λ x. x.id == c.id) cs ≡ none
    → ⊥
found_Row c [] row absent = row
found_Row c (x ∷ cs) (inl e) absent = let clash = rw (e, eq_refl c.id) at absent in cc
found_Row c (x ∷ cs) (inr row) absent = elim (Bool-cases (x.id == c.id)) [
  | inl here ↦ let clash = rw here at absent in cc
  | inr there ↦ found_Row c cs row (rw there at absent)
]

-- Where a session is, `complete_session` ends.
complete_one :
    (pid : String) (c : CheckoutSession) (s : Session) (o : Result CheckoutSession × Session)
    → Row c s.db.checkout_sessions
    → linked pid s ≡ c ∷ []
    → Completes c.id s o
    → Links pid s (continue o.0 (λ _. pure tt) o.1)
complete_one pid c s (raised e, t) row one (_, absent, _) =
    found_Row c s.db.checkout_sessions row absent
complete_one pid c s (ok now, t) row one (old, _, done, here, inl (_, same)) =
    rw (one, same) (refl, refl, refl, ((now, rw same at here, done), tt))
complete_one pid c s (ok now, t) row one (old, _, done, here, inr (_, moved)) =
    let (_, db, _) = moved in
    rw one (
      ap (λ d. d.payment_intents) db,
      ap (λ d. d.ledger_entries) db,
      ap (λ d. d.webhook_events) db,
      ((now, here, done), tt),
    )

Links-rows :
    (p : PaymentIntent) (s : Session) (rows : List CheckoutSession)
    → linked p.id s ≡ rows
    → length rows ≤ 1
    → ((c : CheckoutSession) → Row c rows → Row c s.db.checkout_sessions)
    → Links p.id s (
        (scalar_one_or_none rows >>= λ found. elim found [
          | none ↦ pure tt
          | some c ↦ (complete_session c.id >> pure tt)
        ])
          s)
Links-rows p s [] none_linked few there = rw none_linked (refl, refl, refl, tt)
Links-rows p s (c ∷ []) one few there =
    complete_one p.id c s (complete_session c.id s) (there c (inl refl)) one
      (complete_session-Completes c.id s)
Links-rows p s (c ∷ d ∷ rows) many few there = let clash : ⊥ = omega arith in elim clash [ ]

pub complete_linked-Links :
    (p : PaymentIntent) (s : Session)
    → length (linked p.id s) ≤ 1
    → Links p.id s (complete_linked (some p) s)
unfolding complete_linked find_by_payment_intent
complete_linked-Links p s few =
    Links-rows p s (linked p.id s) refl few (λ c row.
      (Row-select (λ x. is_value x.payment_intent_id p.id) c s.db.checkout_sessions row).0)
