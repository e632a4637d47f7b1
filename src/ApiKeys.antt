-- ===== src/ApiKeys.antt =====
-- app/services/api_key.py: the merchants' API keys.
pub mod Upholds
pub mod Lasting
pub mod KeepsKeys
pub mod Verify
pub mod Issue
mod Tests
use ix_gateway.Prelude.{
  ℕ, String, Bool, true, false, not, ◌&&◌, Option, none, some, List, [], ◌∷◌, ◌++◌, any, find,
  select, ⊤, ltb, ◌==◌, if◌then◌else◌,
}
use ix_gateway.Prelude.Text.{concat, count, take, strip_prefix}
use ix_gateway.Errors.{
  app, unauthorized_error, api_key_not_found_error, assertion_error, integrity_error,
}
use ix_gateway.Models.{ApiKey, Merchant}
use ix_gateway.Env.{Env}
use ix_gateway.Db.{
  Exec, ok, raised, pure, gets, or_raise, raise_if, scalar_one_or_none, commit, uuid4_hex,
  token_hex, ◌>>=◌, ◌>>◌,
}

abbrev pub key_prefix_literal : String
key_prefix_literal = "gw_live_"

abbrev pub key_prefix_index_len : ℕ
key_prefix_index_len = 8

unfoldable pub generate_key : Env → Exec String
generate_key env = do hex ← token_hex env; pure (concat key_prefix_literal hex)

-- `_extract_lookup_prefix`
abbrev pub index_prefix : String → Option String
index_prefix body =
    if ltb (count body) key_prefix_index_len then none else some (take key_prefix_index_len body)

unfoldable pub extract_lookup_prefix : String → Option String
extract_lookup_prefix raw_key = elim (strip_prefix key_prefix_literal raw_key) [
  | none ↦ none
  | some body ↦ index_prefix body
]

abbrev pub new_key : (id merchant_id prefix hash name : String) → ℕ → ApiKey
new_key id merchant_id prefix hash name now = record {
  id = id;
  merchant_id = merchant_id;
  key_prefix = prefix;
  key_hash = hash;
  name = name;
  is_active = true;
  last_used_at = none;
  created_at = now;
}

-- `session.add(row)`, written by the flush of the commit that follows.
unfoldable pub add_key : ApiKey → Exec ⊤
add_key row s =
    if any (λ q. q.id == row.id) s.db.api_keys
    then (raised integrity_error, s)
    else (ok tt, record s { db = record s.db { api_keys = s.db.api_keys ++ row ∷ [] } })

abbrev pub replace_key : ApiKey → List ApiKey → List ApiKey
replace_key row [] = []
replace_key row (q ∷ rest) = (if q.id == row.id then row else q) ∷ replace_key row rest

unfoldable pub save_key : ApiKey → Exec ⊤
save_key row s = (ok tt, record s { db = record s.db { api_keys = replace_key row s.db.api_keys } })

-- The row and the plaintext.
unfoldable pub create_api_key : Env → (merchant_id name : String) → Exec (ApiKey × String)
create_api_key env merchant_id name = do
  raw ← generate_key env
  prefix ← or_raise (extract_lookup_prefix raw) assertion_error
  hex ← uuid4_hex env
  now ← gets (λ s. s.now)
  let row = new_key (concat "ak_" hex) merchant_id prefix (env.sha256_hex raw) name now
  add_key row
  commit
  pure (row, raw)

pub revoke_api_key : (key_id merchant_id : String) → Exec ApiKey
revoke_api_key key_id merchant_id = do
  rows ← gets (λ s. select (λ k. k.id == key_id && k.merchant_id == merchant_id) s.db.api_keys)
  found ← scalar_one_or_none rows
  row ← or_raise found (app api_key_not_found_error)
  let revoked = record row { is_active = false }
  save_key revoked
  commit
  pure revoked

-- The loop over the candidates: the first whose hash is the incoming one.
unfoldable pub match_candidate : (incoming : String) → List ApiKey → Option ApiKey
match_candidate incoming [] = none
match_candidate incoming (k ∷ rest) =
    if k.key_hash == incoming then some k else match_candidate incoming rest

unfoldable pub verify_api_key : Env → String → Exec Merchant
verify_api_key env raw_key = do
  raise_if (raw_key == "") (app unauthorized_error)
  prefix ← or_raise (extract_lookup_prefix raw_key) (app unauthorized_error)
  candidates ← gets (λ s. select (λ k. k.key_prefix == prefix) s.db.api_keys)
  matched ← or_raise (match_candidate (env.sha256_hex raw_key) candidates) (app unauthorized_error)
  raise_if (not matched.is_active) (app unauthorized_error)
  owner ← gets (λ s. find (λ m. m.id == matched.merchant_id) s.db.merchants)
  merchant ← or_raise owner (app unauthorized_error)
  raise_if (not merchant.is_active) (app unauthorized_error)
  now ← gets (λ s. s.now)
  save_key (record matched { last_used_at = some now })
  commit
  pure merchant
