-- ===== src/Ledger/Balances/Nets.antt =====
-- The balances by currency against the entries.
use ix_gateway.Prelude.{
  String, Bool, true, false, ◌&&◌, List, [], ◌∷◌, any, ◌==◌, if◌then◌else◌, ◌≡◌, refl, ◌∙◌, sym, ap,
  arith, inl, inr, Bool-cases,
}
use ix_gateway.Prelude.Int.{ℤ, pos, ◌+ℤ◌, int_laws}
use ix_gateway.Prelude.Dict.{eq_of_==}
use ix_gateway.Models.{LedgerEntry}
use ix_gateway.Ledger.{signed, sum_signed}
use ix_gateway.Ledger.Sums.{net}
use ix_gateway.Ledger.Balances.{
  BalanceRow, in_group, add_entry, group_entries, row_before, insert_row, order_rows,
}

abbrev pub part : Bool → ℤ → ℤ
part b n = if b then n else pos 0

-- What the rows of a currency sum to.
unfoldable pub sum_in : String → List BalanceRow → ℤ
sum_in c [] = pos 0
sum_in c (r ∷ rs) = part (r.currency == c) r.balance +ℤ sum_in c rs

-- Rows of the same account in the same currency, and rows without such a pair.
abbrev pub same_group : BalanceRow → BalanceRow → Bool
same_group r q = (r.currency == q.currency) && (r.account == q.account)

abbrev pub HasGroups : List BalanceRow → Type 0
HasGroups [] = Unit
HasGroups (r ∷ rs) = (any (same_group r) rs ≡ false) × HasGroups rs

part_plus : (b : Bool) (m n : ℤ) → part b (m +ℤ n) ≡ part b m +ℤ part b n
part_plus true m n = refl
part_plus false m n = grind int_laws

swap : (a b c : ℤ) → a +ℤ (b +ℤ c) ≡ b +ℤ (a +ℤ c)
swap a b c = grind int_laws

regroup : (a b c : ℤ) → (a +ℤ b) +ℤ c ≡ b +ℤ (a +ℤ c)
regroup a b c = grind int_laws

first_true : (a b : Bool) → (a && b) ≡ true → a ≡ true
first_true a b h = ground arith

sum_in-add_entry :
    (c : String) (e : LedgerEntry) (rs : List BalanceRow)
    → sum_in c (add_entry e rs)
      ≡ part (e.currency == c) (signed e.direction e.amount) +ℤ sum_in c rs
unfolding sum_in add_entry
sum_in-add_entry c e [] = refl
sum_in-add_entry c e (r ∷ rs) = elim (Bool-cases (in_group e r)) [
  | inl same ↦
      rw
        (
          same,
          eq_of_== r.currency e.currency
              (first_true (r.currency == e.currency) (r.account == e.account) same),
        )
        (ap (λ n. n +ℤ sum_in c rs)
            (part_plus (e.currency == c) r.balance (signed e.direction e.amount))
          ∙ regroup (part (e.currency == c) r.balance)
              (part (e.currency == c) (signed e.direction e.amount)) (sum_in c rs))
  | inr other ↦
      rw (other, sum_in-add_entry c e rs)
        (swap (part (r.currency == c) r.balance)
          (part (e.currency == c) (signed e.direction e.amount)) (sum_in c rs))
]

net_cons :
    (p : LedgerEntry → Bool) (e : LedgerEntry) (es : List LedgerEntry)
    → net p (e ∷ es) ≡ part (p e) (signed e.direction e.amount) +ℤ net p es
unfolding sum_signed
net_cons p e es = elim (Bool-cases (p e)) [
  | inl holds ↦ rw holds refl
  | inr fails ↦ rw fails (grind int_laws)
]

pub sum_in-group_entries :
    (c : String) (es : List LedgerEntry) (rs : List BalanceRow)
    → sum_in c (group_entries es rs) ≡ net (λ e. e.currency == c) es +ℤ sum_in c rs
unfolding group_entries sum_signed
sum_in-group_entries c [] rs = grind int_laws
sum_in-group_entries c (e ∷ es) rs =
    sum_in-group_entries c es (add_entry e rs)
    ∙ rw (sum_in-add_entry c e rs, net_cons (λ e. e.currency == c) e es)
        (sym (
          regroup (part (e.currency == c) (signed e.direction e.amount))
            (net (λ e. e.currency == c) es) (sum_in c rs)))

sum_in-insert_row :
    (c : String) (r : BalanceRow) (rs : List BalanceRow)
    → sum_in c (insert_row r rs) ≡ sum_in c (r ∷ rs)
unfolding sum_in insert_row
sum_in-insert_row c r [] = refl
sum_in-insert_row c r (q ∷ qs) = elim (Bool-cases (row_before r q)) [
  | inl before ↦ rw before refl
  | inr behind ↦
      rw (behind, sum_in-insert_row c r qs)
        (swap (part (q.currency == c) q.balance) (part (r.currency == c) r.balance) (sum_in c qs))
]

pub sum_in-order_rows : (c : String) (rs : List BalanceRow) → sum_in c (order_rows rs) ≡ sum_in c rs
unfolding sum_in order_rows
sum_in-order_rows c [] = refl
sum_in-order_rows c (r ∷ rs) =
    sum_in-insert_row c r (order_rows rs)
    ∙ ap (λ n. part (r.currency == c) r.balance +ℤ n) (sum_in-order_rows c rs)
