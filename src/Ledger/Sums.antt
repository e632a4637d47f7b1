-- ===== src/Ledger/Sums.antt =====
-- Signed sums over ledger entries.
use ix_gateway.Prelude.{◌≡◌, refl, Bool, List, [], ◌∷◌, ◌++◌, select}
use ix_gateway.Prelude.Int.{ℤ, ◌+ℤ◌, int_laws}
use ix_gateway.Models.{LedgerEntry}
use ix_gateway.Ledger.{sum_signed, insert_by_time, order_by_time}

-- The signed sum of the entries with a property.
abbrev pub net : (LedgerEntry → Bool) → List LedgerEntry → ℤ
net p es = sum_signed (select p es)

pub net-append :
    (p : LedgerEntry → Bool) (xs ys : List LedgerEntry) → net p (xs ++ ys) ≡ net p xs +ℤ net p ys
unfolding sum_signed
net-append p [] ys = omega int_laws
net-append p (x ∷ xs) ys = grind (int_laws, net-append p xs ys)

net-insert_by_time :
    (p : LedgerEntry → Bool) (e : LedgerEntry) (es : List LedgerEntry)
    → net p (insert_by_time e es) ≡ net p (e ∷ es)
unfolding sum_signed insert_by_time
net-insert_by_time p e [] = refl
net-insert_by_time p e (x ∷ xs) = grind (int_laws, net-insert_by_time p e xs)

-- The order of the entries does not matter.
pub net-order_by_time :
    (p : LedgerEntry → Bool) (es : List LedgerEntry) → net p (order_by_time es) ≡ net p es
unfolding order_by_time sum_signed
net-order_by_time p [] = omega int_laws
net-order_by_time p (e ∷ es) =
    grind (int_laws, net-insert_by_time p e (order_by_time es), net-order_by_time p es)
