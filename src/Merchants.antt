-- ===== src/Merchants.antt =====
-- app/services/merchant.py: merchants and the inventory of their keys.
pub mod Upholds
use ix_gateway.Prelude.{
  ℕ, String, true, Option, List, [], ◌∷◌, ◌++◌, ◌||◌, any, find, select, ⊤, leb, ◌==◌,
  if◌then◌else◌,
}
use ix_gateway.Prelude.Text.{lower, concat}
use ix_gateway.Errors.{
  Exn, app, integrity_error, idempotency_conflict_error, merchant_not_found_error,
}
use ix_gateway.Models.{ApiKey, Merchant}
use ix_gateway.Env.{Env}
use ix_gateway.Db.{
  Result, Session, Exec, ok, raised, pure, raise, gets, or_raise, commit, rollback, uuid4_hex,
  ◌>>=◌, ◌>>◌,
}

abbrev pub new_merchant : (id name email : String) → ℕ → Merchant
new_merchant id name email now = record {
  id = id;
  name = name;
  email = email;
  is_active = true;
  created_at = now;
  updated_at = now;
}

-- `session.add(merchant)` and the flush of `session.commit()`: ids and e-mail addresses are unique.
unfoldable pub add_merchant : Merchant → Exec ⊤
add_merchant m s =
    if any (λ q. q.id == m.id || q.email == m.email) s.db.merchants
    then (raised integrity_error, s)
    else (ok tt, record s { db = record s.db { merchants = s.db.merchants ++ m ∷ [] } })

-- `except IntegrityError: await session.rollback(); raise IdempotencyConflictError`
abbrev pub conflict_on_integrity : Result ⊤ → Exec ⊤
conflict_on_integrity (raised integrity_error) = rollback >> raise (app idempotency_conflict_error)
conflict_on_integrity (raised e) = raise e
conflict_on_integrity (ok a) = pure a

unfoldable pub commit_merchant : Merchant → Exec ⊤
unfolding add_merchant
commit_merchant m s = let (r, s') = (add_merchant m >> commit) s in conflict_on_integrity r s'

pub create_merchant : Env → (name email : String) → Exec Merchant
create_merchant env name email = do
  hex ← uuid4_hex env
  now ← gets (λ s. s.now)
  let m = new_merchant (concat "mer_" hex) name (lower email) now
  commit_merchant m
  pure m

unfoldable pub get_merchant : String → Exec Merchant
get_merchant mid = do
  found ← gets (λ s. find (λ m. m.id == mid) s.db.merchants)
  or_raise found (app merchant_not_found_error)

-- `order_by(created_at.desc())`; rows of one time stay in the order of their insertion.
unfoldable pub insert_newest : ApiKey → List ApiKey → List ApiKey
insert_newest k [] = k ∷ []
insert_newest k (x ∷ xs) =
    let rest = insert_newest k xs in if leb x.created_at k.created_at then k ∷ x ∷ xs else x ∷ rest

unfoldable pub order_newest : List ApiKey → List ApiKey
unfolding insert_newest
order_newest [] = []
order_newest (k ∷ ks) = insert_newest k (order_newest ks)

unfoldable pub list_api_keys : String → Exec (List ApiKey)
list_api_keys mid = gets (λ s. order_newest (select (λ k. k.merchant_id == mid) s.db.api_keys))
