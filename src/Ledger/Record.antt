-- ===== src/Ledger/Record.antt =====
-- What `record_transaction` writes.
use ix_gateway.Prelude.{
  ℕ, ◌+◌, ◌≤◌, String, true, false, Option, none, some, List, [], ◌∷◌, ◌++◌, ◌≡◌, refl, ltb, length,
  any, All, arith, Bool-cases, inl, inr,
}
use ix_gateway.Prelude.Int.{ℤ, pos, ◌+ℤ◌, ◌<ℤ◌, leb_ℤ, eqb_ℤ, eqb_ℤ→eq, eqb_ℤ_refl, int_laws}
use ix_gateway.Prelude.Text.{lower, truthy, concat}
use ix_gateway.Errors.{ledger, not_positive}
use ix_gateway.Models.{Metadata, LedgerEntry, debit, credit}
use ix_gateway.Env.{Env}
use ix_gateway.Db.{Session, Result, ok, raised, uuid4_hex, ◌>>=◌}
use ix_gateway.Ledger.{
  LedgerLeg, pair, sum_legs, sum_signed, entries_of, record_transaction, transaction_id_or_new,
  add_entries,
}

abbrev pub IsPositive : LedgerEntry → Type 0
IsPositive e = pos 0 <ℤ e.amount

-- What a call of `record_transaction` has done, by how it ended: it refused the legs and left the
-- session alone, or it appended a transaction that is balanced.
abbrev pub Records : Session → Result (List LedgerEntry) × Session → Type 0
Records s (raised e, s') = s' ≡ s
Records s (ok es, s') =
    (s'.db ≡ record s.db { ledger_entries = s.db.ledger_entries ++ es })
    × (s'.committed ≡ s.committed)
    × (sum_signed es ≡ pos 0)
    × All IsPositive es
    × (2 ≤ length es)

module _ (env : Env) (now : ℕ) (txn currency : String) (pid description : Option String)
    (metadata : Metadata) where
  sum_signed-entries_of :
      (n : ℕ) (legs : List LedgerLeg)
      → sum_signed (entries_of env n now txn currency pid description metadata legs)
          +ℤ sum_legs debit legs
        ≡ sum_legs credit legs
  unfolding sum_signed entries_of sum_legs
  sum_signed-entries_of n [] = omega int_laws
  sum_signed-entries_of n (leg ∷ legs) = grind (int_laws, sum_signed-entries_of (n + 1) legs)

  length-entries_of :
      (n : ℕ) (legs : List LedgerLeg)
      → length (entries_of env n now txn currency pid description metadata legs) ≡ length legs
  unfolding entries_of
  length-entries_of n [] = refl
  length-entries_of n (leg ∷ legs) = omega (arith, length-entries_of (n + 1) legs)

  entries_of-IsPositive :
      (n : ℕ) (legs : List LedgerLeg)
      → any (λ leg. leb_ℤ leg.amount (pos 0)) legs ≡ false
      → All IsPositive (entries_of env n now txn currency pid description metadata legs)
  unfolding entries_of
  entries_of-IsPositive n [] h = tt
  entries_of-IsPositive n (leg ∷ legs) h = ground (arith, entries_of-IsPositive (n + 1) legs)

cancel_equal : (a b c : ℤ) → a +ℤ b ≡ c → b ≡ c → a ≡ pos 0
cancel_equal a b c h k = grind int_laws

-- The rows that are appended once the legs have passed the three tests.
add_entries-Records :
    (env : Env) (legs : List LedgerLeg) (txn currency : String) (pid description : Option String)
    (metadata : Metadata) (s t : Session)
    → t.db ≡ s.db
    → t.committed ≡ s.committed
    → ltb (length legs) 2 ≡ false
    → eqb_ℤ (sum_legs debit legs) (sum_legs credit legs) ≡ true
    → any (λ leg. leb_ℤ leg.amount (pos 0)) legs ≡ false
    → Records s (add_entries env txn currency pid description metadata legs t)
unfolding add_entries
add_entries-Records env legs txn currency pid description metadata s t db committed long balanced
      positive =
    let es = entries_of env t.uuids t.now txn currency pid description metadata legs in
    (
      rw db,
      committed,
      cancel_equal (sum_signed es) (sum_legs debit legs) (sum_legs credit legs)
          (sum_signed-entries_of env t.now txn currency pid description metadata t.uuids legs)
          (eqb_ℤ→eq (sum_legs debit legs) (sum_legs credit legs) balanced),
      entries_of-IsPositive env t.now txn currency pid description metadata t.uuids legs positive,
      rw (length-entries_of env t.now txn currency pid description metadata t.uuids legs)
          (ground arith),
    )

named-Records :
    (env : Env) (legs : List LedgerLeg) (currency : String) (pid description : Option String)
    (metadata : Metadata) (named : Option String) (s : Session)
    → ltb (length legs) 2 ≡ false
    → eqb_ℤ (sum_legs debit legs) (sum_legs credit legs) ≡ true
    → any (λ leg. leb_ℤ leg.amount (pos 0)) legs ≡ false
    → Records s (
        (transaction_id_or_new env named >>= λ txn.
        add_entries env txn currency pid description metadata legs)
          s)
unfolding transaction_id_or_new uuid4_hex
named-Records env legs currency pid description metadata none s =
    add_entries-Records env legs (concat "tx_" (env.uuid_hex s.uuids)) currency pid description
      metadata s (record s { uuids = s.uuids + 1 }) refl refl
named-Records env legs currency pid description metadata (some txn) s =
    add_entries-Records env legs txn currency pid description metadata s s refl refl

-- Whatever legs it is given, `record_transaction` raises and leaves the session as it was, or it
-- appends at least two rows, each of a positive amount, whose credits equal their debits; it never
-- commits.
pub record_transaction-Records :
    (env : Env) (legs : List LedgerLeg) (currency : String) (pid description : Option String)
    (metadata : Metadata) (transaction_id : Option String) (s : Session)
    → Records s (record_transaction env legs currency pid description metadata transaction_id s)
unfolding record_transaction uuid4_hex
record_transaction-Records env legs currency pid description metadata transaction_id s =
    elim (Bool-cases (ltb (length legs) 2)) [
      | inl short ↦ rw short refl
      | inr long ↦ elim (Bool-cases (eqb_ℤ (sum_legs debit legs) (sum_legs credit legs))) [
        | inr differ ↦ rw (long, differ) refl
        | inl balanced ↦ elim (Bool-cases (any (λ leg. leb_ℤ leg.amount (pos 0)) legs)) [
          | inl low ↦ rw (long, balanced, low) refl
          | inr positive ↦
              rw (long, balanced, positive)
                (named-Records env legs (lower currency) pid description metadata
                  (truthy transaction_id) s long balanced positive)
        ]
      ]
    ]

module _ (env : Env) (from to : String) (amount : ℤ) (currency : String)
    (pid description : Option String) (metadata : Metadata) (s : Session) where
  -- The two rows.
  abbrev pub pair_entries : List LedgerEntry
  pair_entries =
      entries_of env (s.uuids + 1) s.now (concat "tx_" (env.uuid_hex s.uuids)) (lower currency) pid
        description metadata (pair from to amount)

  -- The session with the two rows.
  abbrev pub with_pair : Session
  with_pair = record s {
    db = record s.db { ledger_entries = s.db.ledger_entries ++ pair_entries };
    uuids = s.uuids + 1 + 2;
  }

  pub record_transaction-pair_ok :
      leb_ℤ amount (pos 0) ≡ false
      → record_transaction env (pair from to amount) currency pid description metadata none s
        ≡ (ok pair_entries, with_pair)
  unfolding record_transaction uuid4_hex sum_legs
  record_transaction-pair_ok h = rw (eqb_ℤ_refl (amount +ℤ pos 0), h) refl

  pub record_transaction-pair_raised :
      leb_ℤ amount (pos 0) ≡ true
      → record_transaction env (pair from to amount) currency pid description metadata none s
        ≡ (raised (ledger not_positive), s)
  unfolding record_transaction uuid4_hex sum_legs
  record_transaction-pair_raised h = rw (eqb_ℤ_refl (amount +ℤ pos 0), h) refl
