-- ===== src/Ledger/Balances/Groups.antt =====
-- Each account in a currency has one row, and one place in the nested dictionary.
use ix_gateway.Prelude.{
  Bool, false, ◌||◌, List, [], ◌∷◌, any, ◌≡◌, refl, ◌∙◌, ap, arith, inl, inr, Bool-cases, eq_iff,
}
use ix_gateway.Prelude.Dict.Distinct.{both_false, first_false, second_false}
use ix_gateway.Models.{LedgerEntry}
use ix_gateway.Ledger.Balances.{
  BalanceRow, in_group, add_entry, group_entries, row_before, insert_row, order_rows,
}
use ix_gateway.Ledger.Balances.Nets.{same_group, HasGroups}

absent-add_entry :
    (r : BalanceRow) (e : LedgerEntry) (rs : List BalanceRow)
    → in_group e r ≡ false
    → any (same_group r) rs ≡ false
    → any (same_group r) (add_entry e rs) ≡ false
unfolding add_entry
absent-add_entry r e [] apart none_same = both_false (in_group e r) false apart refl
absent-add_entry r e (q ∷ qs) apart none_same = elim (Bool-cases (in_group e q)) [
  | inl same ↦ rw same none_same
  | inr other ↦ rw other (
      both_false (same_group r q) (any (same_group r) (add_entry e qs))
        (first_false (same_group r q) (any (same_group r) qs) none_same)
        (absent-add_entry r e qs apart
          (second_false (same_group r q) (any (same_group r) qs) none_same)))
]

HasGroups-add_entry :
    (e : LedgerEntry) (rs : List BalanceRow) → HasGroups rs → HasGroups (add_entry e rs)
unfolding add_entry
HasGroups-add_entry e [] h = (refl, tt)
HasGroups-add_entry e (r ∷ rs) (apart, h) = elim (Bool-cases (in_group e r)) [
  | inl same ↦ rw same (apart, h)
  | inr other ↦ rw other (absent-add_entry r e rs other apart, HasGroups-add_entry e rs h)
]

HasGroups-group_entries :
    (es : List LedgerEntry) (rs : List BalanceRow) → HasGroups rs → HasGroups (group_entries es rs)
unfolding group_entries
HasGroups-group_entries [] rs h = h
HasGroups-group_entries (e ∷ es) rs h =
    HasGroups-group_entries es (add_entry e rs) (HasGroups-add_entry e rs h)

same_group_symm : (r q : BalanceRow) → same_group r q ≡ same_group q r
same_group_symm r q = ground (
  arith,
  eq_iff r.currency q.currency,
  eq_iff q.currency r.currency,
  eq_iff r.account q.account,
  eq_iff q.account r.account,
)

or_swap : (a b c : Bool) → (a || (b || c)) ≡ (b || (a || c))
or_swap a b c = ground arith

any-insert_row :
    (test : BalanceRow → Bool) (r : BalanceRow) (rs : List BalanceRow)
    → any test (insert_row r rs) ≡ (test r || any test rs)
unfolding insert_row
any-insert_row test r [] = refl
any-insert_row test r (q ∷ qs) = elim (Bool-cases (row_before r q)) [
  | inl before ↦ rw before refl
  | inr behind ↦ rw (behind, any-insert_row test r qs) (or_swap (test q) (test r) (any test qs))
]

any-order_rows :
    (test : BalanceRow → Bool) (rs : List BalanceRow) → any test (order_rows rs) ≡ any test rs
unfolding order_rows
any-order_rows test [] = refl
any-order_rows test (r ∷ rs) =
    any-insert_row test r (order_rows rs) ∙ ap (λ b. test r || b) (any-order_rows test rs)

HasGroups-insert_row :
    (r : BalanceRow) (rs : List BalanceRow)
    → any (same_group r) rs ≡ false
    → HasGroups rs
    → HasGroups (insert_row r rs)
unfolding insert_row
HasGroups-insert_row r [] new h = (refl, tt)
HasGroups-insert_row r (q ∷ qs) new (apart, h) = elim (Bool-cases (row_before r q)) [
  | inl before ↦ rw before (new, (apart, h))
  | inr behind ↦ rw behind (
    any-insert_row (same_group q) r qs
        ∙ both_false (same_group q r) (any (same_group q) qs)
            (same_group_symm q r ∙ first_false (same_group r q) (any (same_group r) qs) new) apart,
    HasGroups-insert_row r qs (second_false (same_group r q) (any (same_group r) qs) new) h,
  )
]

pub HasGroups-order_rows : (rs : List BalanceRow) → HasGroups rs → HasGroups (order_rows rs)
unfolding order_rows
HasGroups-order_rows [] h = tt
HasGroups-order_rows (r ∷ rs) (apart, h) =
    HasGroups-insert_row r (order_rows rs) (any-order_rows (same_group r) rs ∙ apart)
      (HasGroups-order_rows rs h)

pub HasGroups-grouped : (es : List LedgerEntry) → HasGroups (order_rows (group_entries es []))
HasGroups-grouped es = HasGroups-order_rows (group_entries es []) (HasGroups-group_entries es [] tt)
