-- ===== src/Ledger/Balances/Nested.antt =====
-- The nested dictionary of balances against the entries.
use ix_gateway.Prelude.{
  String, Bool, true, false, ◌&&◌, Option, List, [], ◌∷◌, any, All, select, ◌==◌, if◌then◌else◌,
  ◌≡◌, refl, ◌∙◌, ap, arith, inl, inr, Bool-cases,
}
use ix_gateway.Prelude.Int.{ℤ, pos, ◌+ℤ◌, int_laws}
use ix_gateway.Prelude.Dict.{get, set_key, keys, mem, total, eq_of_==, get-set_key}
use ix_gateway.Prelude.Dict.Distinct.{
  IsDistinct, IsDistinct-set_key, mem-set_key, both_false, first_false, second_false,
}
use ix_gateway.Models.{LedgerEntry}
use ix_gateway.Db.{Db}
use ix_gateway.Ledger.{sum_signed}
use ix_gateway.Ledger.Sums.{net}
use ix_gateway.Ledger.Balances.{
  BalanceRow, is_scoped, balance_rows, group_entries, accounts_in, nest, or_empty,
}
use ix_gateway.Ledger.Balances.Nets.{
  same_group, HasGroups, sum_in, part, sum_in-order_rows, sum_in-group_entries,
}
use ix_gateway.Ledger.Balances.Groups.{HasGroups-grouped}

abbrev Nested : Type 0
Nested = List (String × List (String × ℤ))

abbrev put : BalanceRow → Nested → Nested
put r g = set_key r.currency (set_key r.account r.balance (accounts_in r.currency g)) g

accounts_in-put :
    (c : String) (r : BalanceRow) (g : Nested)
    → accounts_in c (put r g) ≡ (
        if r.currency == c
        then set_key r.account r.balance (accounts_in r.currency g)
        else accounts_in c g)
accounts_in-put c r g =
    let accounts = set_key r.account r.balance (accounts_in r.currency g) in
    ap or_empty (get-set_key c r.currency accounts g)
    ∙ elim (Bool-cases (r.currency == c)) [ inl same ↦ rw same refl | inr other ↦ rw other refl ]

total-set_key :
    (k : String) (n : ℤ) (d : List (String × ℤ))
    → mem k (keys d) ≡ false
    → total (set_key k n d) ≡ n +ℤ total d
unfolding total set_key
total-set_key k n [] new = refl
total-set_key k n ((j, m) ∷ d) new =
    rw
      (
        first_false (j == k) (mem k (keys d)) new,
        total-set_key k n d (second_false (j == k) (mem k (keys d)) new),
      )
      (swap m n (total d))
  where
    swap : (a b c : ℤ) → a +ℤ (b +ℤ c) ≡ b +ℤ (a +ℤ c)
    swap a b c = grind int_laws

-- The accounts of the rows to come are not there yet.
abbrev Fresh : List BalanceRow → Nested → Type 0
Fresh rs g = All (λ r. mem r.account (keys (accounts_in r.currency g)) ≡ false) rs

second_apart : (a b : Bool) → a ≡ true → (a && b) ≡ false → b ≡ false
second_apart a b h k = ground arith

still_absent :
    (r q : BalanceRow) (g : Nested)
    → same_group r q ≡ false
    → mem q.account (keys (accounts_in q.currency g)) ≡ false
    → mem q.account (keys (accounts_in q.currency (put r g))) ≡ false
still_absent r q g apart absent =
    rw (accounts_in-put q.currency r g) (elim (Bool-cases (r.currency == q.currency)) [
      | inl same ↦
          rw (same, eq_of_== r.currency q.currency same)
            (mem-set_key q.account r.account r.balance (accounts_in q.currency g)
              ∙ both_false (mem q.account (keys (accounts_in q.currency g)))
                  (r.account == q.account) absent
                  (second_apart (r.currency == q.currency) (r.account == q.account) same apart))
      | inr other ↦ rw other absent
    ])

Fresh-put :
    (r : BalanceRow) (rs : List BalanceRow) (g : Nested)
    → any (same_group r) rs ≡ false
    → Fresh rs g
    → Fresh rs (put r g)
Fresh-put r [] g apart h = tt
Fresh-put r (q ∷ qs) g apart (absent, h) = (
  still_absent r q g (first_false (same_group r q) (any (same_group r) qs) apart) absent,
  Fresh-put r qs g (second_false (same_group r q) (any (same_group r) qs) apart) h,
)

total-put :
    (c : String) (r : BalanceRow) (g : Nested)
    → mem r.account (keys (accounts_in r.currency g)) ≡ false
    → total (accounts_in c (put r g)) ≡ part (r.currency == c) r.balance +ℤ total (accounts_in c g)
total-put c r g new = rw (accounts_in-put c r g) (elim (Bool-cases (r.currency == c)) [
  | inl same ↦ rw same (
      total-set_key r.account r.balance (accounts_in r.currency g) new
      ∙ ap (λ k. r.balance +ℤ total (accounts_in k g)) (eq_of_== r.currency c same))
  | inr other ↦ rw other (grind int_laws)
])

total-nest :
    (c : String) (rs : List BalanceRow) (g : Nested)
    → HasGroups rs
    → Fresh rs g
    → total (accounts_in c (nest rs g)) ≡ sum_in c rs +ℤ total (accounts_in c g)
unfolding nest sum_in
total-nest c [] g groups fresh = grind int_laws
total-nest c (r ∷ rs) g (apart, groups) (new, fresh) =
    total-nest c rs (put r g) groups (Fresh-put r rs g apart fresh)
    ∙ rw (total-put c r g new)
        (regroup (sum_in c rs) (part (r.currency == c) r.balance) (total (accounts_in c g)))
  where
    regroup : (a b c : ℤ) → a +ℤ (b +ℤ c) ≡ (b +ℤ a) +ℤ c
    regroup a b c = grind int_laws

pub IsDistinct-nest :
    (rs : List BalanceRow) (g : Nested) → IsDistinct (keys g) → IsDistinct (keys (nest rs g))
unfolding nest
IsDistinct-nest [] g h = h
IsDistinct-nest (r ∷ rs) g h =
    IsDistinct-nest rs (put r g)
      (IsDistinct-set_key r.currency (set_key r.account r.balance (accounts_in r.currency g)) g h)

Fresh-empty : (rs : List BalanceRow) → Fresh rs []
unfolding get
Fresh-empty [] = tt
Fresh-empty (r ∷ rs) = (refl, Fresh-empty rs)

net-select :
    (p q : LedgerEntry → Bool) (es : List LedgerEntry)
    → net p (select q es) ≡ net (λ e. q e && p e) es
unfolding sum_signed
net-select p q [] = refl
net-select p q (e ∷ es) = elim (Bool-cases (q e)) [
  | inl kept ↦ elim (Bool-cases (p e)) [
    | inl holds ↦ rw (kept, holds, net-select p q es) refl
    | inr fails ↦ rw (kept, fails) (net-select p q es)
  ]
  | inr dropped ↦ rw dropped (net-select p q es)
]

-- What the accounts of a currency sum to is the net of the entries in scope in that currency.
pub total-accounts_in :
    (c : String) (merchant : Option String) (d : Db)
    → total (accounts_in c (nest (balance_rows merchant d) []))
      ≡ net
          (λ e. is_scoped d.payment_intents merchant e.payment_intent_id && e.currency == c)
          d.ledger_entries
unfolding get sum_in total
total-accounts_in c merchant d =
    let scoped =
      select (λ e. is_scoped d.payment_intents merchant e.payment_intent_id) d.ledger_entries in
    total-nest c (balance_rows merchant d) [] (HasGroups-grouped scoped)
      (Fresh-empty (balance_rows merchant d))
    ∙ ap (λ n. n +ℤ pos 0)
        (sum_in-order_rows c (group_entries scoped []) ∙ sum_in-group_entries c scoped [])
    ∙ two_zeros (net (λ e. e.currency == c) scoped)
    ∙ net-select (λ e. e.currency == c)
        (λ e. is_scoped d.payment_intents merchant e.payment_intent_id) d.ledger_entries
  where
    two_zeros : (n : ℤ) → (n +ℤ pos 0) +ℤ pos 0 ≡ n
    two_zeros n = grind int_laws
