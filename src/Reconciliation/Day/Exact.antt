-- ===== src/Reconciliation/Day/Exact.antt =====
-- What a reconciliation of a day reports.
use ix_gateway.Prelude.{
  ℕ, String, Bool, true, false, not, ◌&&◌, ◌||◌, Option, none, some, List, [], ◌∷◌, ◌++◌, ◌≡◌, refl,
  ◌∙◌, inl, inr, any, length, Bool-cases, ◌==◌, arith,
}
use ix_gateway.Prelude.Int.{ℤ, eqb_ℤ}
use ix_gateway.Prelude.Dict.{
  get, keys, mem, union, sorted, is_some, eq_of_==, any-append, mem-union, mem-sorted, mem-keys,
  total,
}
use ix_gateway.Models.{
  Mismatch, missing_stripe, missing_internal, amount_mismatch, ReconciliationRun,
}
use ix_gateway.Env.{Env, BalanceTransaction}
use ix_gateway.Db.{Session, Result, ok, raised, uuid4_hex, session_scope}
use ix_gateway.Reconciliation.Day.{
  compare_amounts, classify, stripe_by_pi, internal_side, new_run, add_run, compare_sides,
  record_run,
}

-- The id that a mismatch is about.
abbrev pub about : Mismatch → String
about (missing_stripe pi i) = pi
about (missing_internal pi s) = pi
about (amount_mismatch pi s i d) = pi

-- The two sides disagree on an id: one has it and the other has not, or the amounts are different.
abbrev pub differ : Option ℤ → Option ℤ → Bool
differ none none = false
differ none (some i) = true
differ (some s) none = true
differ (some s) (some i) = not (eqb_ℤ s i)

-- The same for an id that one side has.
abbrev differ_known : Option ℤ → Option ℤ → Bool
differ_known none i = true
differ_known (some s) none = true
differ_known (some s) (some i) = not (eqb_ℤ s i)

known_differ : (s i : Option ℤ) → ((is_some s || is_some i) && differ_known s i) ≡ differ s i
known_differ none none = refl
known_differ none (some i) = refl
known_differ (some s) none = refl
known_differ (some s) (some i) = refl

any-compare_amounts :
    (pi k : String) (s i : Option ℤ)
    → any (λ m. about m == pi) (compare_amounts k s i) ≡ ((k == pi) && differ_known s i)
unfolding compare_amounts
any-compare_amounts pi k none i = ground arith
any-compare_amounts pi k (some s) none = ground arith
any-compare_amounts pi k (some s) (some i) = elim (Bool-cases (eqb_ℤ s i)) [
  | inl same ↦ rw same (ground arith)
  | inr other ↦ rw other (ground arith)
]

distrib : (a m d : Bool) → ((a && d) || (m && d)) ≡ ((a || m) && d)
distrib a m d = ground arith

any-classify :
    (pi : String) (ids : List String) (stripe internal : List (String × ℤ))
    → any (λ m. about m == pi) (classify ids stripe internal)
      ≡ (mem pi ids && differ_known (get pi stripe) (get pi internal))
unfolding classify
any-classify pi [] stripe internal = refl
any-classify pi (k ∷ ids) stripe internal =
    any-append (λ m. about m == pi) (compare_amounts k (get k stripe) (get k internal))
      (classify ids stripe internal)
    ∙ rw
        (
          any-compare_amounts pi k (get k stripe) (get k internal),
          any-classify pi ids stripe internal,
        )
        (elim (Bool-cases (k == pi)) [
          | inr other ↦ rw other refl
          | inl same ↦
              rw (eq_of_== k pi same)
                (distrib (pi == pi) (mem pi ids) (differ_known (get pi stripe) (get pi internal)))
        ])

mem-ids :
    (pi : String) (a b : List (String × ℤ))
    → mem pi (sorted (union (keys a) (keys b))) ≡ (is_some (get pi a) || is_some (get pi b))
mem-ids pi a b =
    mem-sorted pi (union (keys a) (keys b))
    ∙ rw (mem-union pi (keys a) (keys b), mem-keys pi a, mem-keys pi b) refl

-- The mismatches of two sides: an id is among them exactly if the sides disagree on it.
reports_exactly :
    (pi : String) (a b : List (String × ℤ))
    → any (λ m. about m == pi) (classify (sorted (union (keys a) (keys b))) a b)
      ≡ differ (get pi a) (get pi b)
reports_exactly pi a b =
    any-classify pi (sorted (union (keys a) (keys b))) a b
    ∙ rw (mem-ids pi a b) (known_differ (get pi a) (get pi b))

-- What a pass has done. A run that returned has, for every id, a mismatch exactly if the two sides
-- disagree on the id; it has the totals of the sides and the count of the mismatches, stands at the
-- end of the table of runs, and is committed, with every other table as it was. A run that raised
-- has changed no table.
abbrev pub RunOutcome :
    (day : ℕ) → List BalanceTransaction → Session → Result ReconciliationRun × Session → Type 0
RunOutcome day bts s (raised e, t) = (t.committed ≡ s.committed) × (t.db ≡ s.committed)
RunOutcome day bts s (ok r, t) =
    ((pi : String)
      → any (λ m. about m == pi) r.mismatches
        ≡ differ (get pi (stripe_by_pi bts [])) (get pi (internal_side day s)))
    × (r.run_date ≡ day)
    × (r.total_stripe ≡ total (stripe_by_pi bts []))
    × (r.total_internal ≡ total (internal_side day s))
    × (r.mismatches_count ≡ length r.mismatches)
    × (t.db ≡ record s.db { reconciliation_runs = s.db.reconciliation_runs ++ r ∷ [] })
    × (t.committed ≡ t.db)

-- The pass over a day's balance transactions either returns a run that is right, or raises and
-- changes no table. In a run an id has a mismatch exactly if Stripe's net amount for it and ours
-- disagree, one being missing included; the totals are those of the two sides; and the run is the
-- only thing that is written, and is committed.
pub record_run-RunOutcome :
    (env : Env) (day : ℕ) (bts : List BalanceTransaction) (s : Session)
    → RunOutcome day bts s (record_run env day bts s)
unfolding record_run session_scope compare_sides uuid4_hex add_run
record_run-RunOutcome env day bts s =
    let r = new_run (stripe_by_pi bts []) (internal_side day s) day (env.uuid_hex s.uuids) s.now in
    elim (Bool-cases (any (λ q. q.id == r.id) s.db.reconciliation_runs)) [
      | inl taken ↦ rw taken (refl, refl)
      | inr fresh ↦ rw fresh (
        λ pi. reports_exactly pi (stripe_by_pi bts []) (internal_side day s),
        refl,
        refl,
        refl,
        refl,
        refl,
        refl,
      )
    ]
