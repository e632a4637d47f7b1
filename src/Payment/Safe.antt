-- ===== src/Payment/Safe.antt =====
-- Sessions that keep the books, and a rule for the operations that book a pair.
use ix_gateway.Prelude.{
  String, true, false, Option, none, some, List, [], ◌∷◌, ◌++◌, ◌≡◌, refl, Row, inl, inr, ◌==◌,
  eq_refl, ◌+◌, Bool-cases,
}
use ix_gateway.Prelude.Dict.{or_true}
use ix_gateway.Prelude.Int.{ℤ, pos, leb_ℤ}
use ix_gateway.Prelude.Text.{lower, concat}
use ix_gateway.Models.{Metadata, PaymentIntent, LedgerEntry}
use ix_gateway.Env.{Env}
use ix_gateway.Db.{Db, Session, Result, Exec, ◌>>=◌}
use ix_gateway.Ledger.{pair, record_transaction}
use ix_gateway.Ledger.Record.{record_transaction-pair_ok, record_transaction-pair_raised}
use ix_gateway.Payment.{replace_intent, stamped}
use ix_gateway.Payment.Upholds.{Meets, OnPayments, Upholds, Upholds-raised}
use ix_gateway.Payment.Books.{IsConsistent, IsSettled, has_row, rows}
use ix_gateway.Payment.Books.Booking.{book-IsConsistent}

abbrev pub Holds : Db → Type 0
Holds = Meets (OnPayments IsConsistent)

abbrev pub Safe : {A : Type 0} → Result A × Session → Type 0
Safe outcome = Upholds (OnPayments IsConsistent) outcome

-- The session after the row of an intent has been written.
abbrev pub saved : Session → PaymentIntent → PaymentIntent → Session
saved s old new = record s {
  db = record s.db {
    payment_intents = replace_intent (stamped s.now old new) s.db.payment_intents;
  };
}

-- The id of a row that was found is in the table.
pub has_row-Row :
    (p : PaymentIntent) (ps : List PaymentIntent) → Row p ps → has_row ps (some p.id) ≡ true
has_row-Row p [] r = elim r [ ]
has_row-Row p (q ∷ ps) (inl e) = rw (e, eq_refl p.id) refl
has_row-Row p (q ∷ ps) (inr r) = rw (has_row-Row p ps r) (or_true (q.id == p.id))

module _ (env : Env) where
  -- A rule for the operations that write a row, book a pair and finish.
  pub book_rule :
      {A : Type 0} (finish : List LedgerEntry → Exec A) (from to : String) (amount : ℤ)
      (currency : String) (description : Option String) (metadata : Metadata)
      (old new : PaymentIntent) (s : Session)
      → has_row s.db.payment_intents (some new.id) ≡ true
      → Holds s.db
      → Holds s.committed
      → (leb_ℤ amount (pos 0) ≡ false
          → IsSettled
              (s.db.ledger_entries
                ++ rows env
                    (s.uuids + 1)
                    s.now
                    (concat "tx_" (env.uuid_hex s.uuids))
                    (lower currency)
                    from
                    to
                    new.id
                    amount
                    description
                    metadata)
              (stamped s.now old new))
      → ((es : List LedgerEntry) (t : Session)
          → Holds t.db
          → Holds t.committed
          → Safe (finish es t))
      → Safe (
          (record_transaction env
                (pair from to amount)
                currency
                (some new.id)
                description
                metadata
                none
              >>= finish)
            (saved s old new))
  book_rule finish from to amount currency description metadata old new s known h k own done =
      elim (Bool-cases (leb_ℤ amount (pos 0))) [
        | inl low ↦
            rw
              (record_transaction-pair_raised env from to amount currency (some new.id) description
                metadata (saved s old new) low)
              (Upholds-raised _ _ k)
        | inr high ↦
            rw
              (record_transaction-pair_ok env from to amount currency (some new.id) description
                metadata (saved s old new) high)
              (done _ _
                (book-IsConsistent env (s.uuids + 1) s.now (concat "tx_" (env.uuid_hex s.uuids))
                  (lower currency) from to amount description metadata (stamped s.now old new)
                  s.db.payment_intents s.db.ledger_entries h known (own high))
                k)
      ]
