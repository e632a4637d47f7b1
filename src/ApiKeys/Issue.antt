-- ===== src/ApiKeys/Issue.antt =====
-- A key that has been issued is accepted.
use ix_gateway.Prelude.{
  String, Bool, true, false, some, List, [], ◌∷◌, ◌++◌, ◌≡◌, refl, ◌∙◌, ap, inl, inr, find, select,
  any, All, Bool-cases, ⊤, ◌==◌, eq_refl, eq_iff, arith, ◌+◌,
}
use ix_gateway.Prelude.Text.{concat}
use ix_gateway.Errors.{assertion_error}
use ix_gateway.Models.{ApiKey, Merchant}
use ix_gateway.Env.{Env}
use ix_gateway.Db.{Session, Result, ok, raised, uuid4_hex, token_hex}
use ix_gateway.Db.Query.{or_raise_cases}
use ix_gateway.ApiKeys.{
  key_prefix_literal, add_key, generate_key, create_api_key, match_candidate, extract_lookup_prefix,
  save_key, verify_api_key,
}

-- What a call that issued a key has done.
abbrev Issues : Env → String → Session → Result (ApiKey × String) × Session → Type 0
Issues env merchant_id s (ok (k, raw), t) =
    (t.db.api_keys ≡ s.db.api_keys ++ k ∷ [])
    × (t.db.merchants ≡ s.db.merchants)
    × (extract_lookup_prefix raw ≡ some k.key_prefix)
    × (k.key_hash ≡ env.sha256_hex raw)
    × (k.is_active ≡ true)
    × (k.merchant_id ≡ merchant_id)
Issues env merchant_id s (raised e, t) = ⊤

create_api_key-Issues :
    (env : Env) (merchant_id name : String) (s : Session)
    → Issues env merchant_id s (create_api_key env merchant_id name s)
unfolding create_api_key generate_key token_hex uuid4_hex add_key
create_api_key-Issues env merchant_id name s =
    let raw = concat key_prefix_literal (env.token_hex s.uuids) in
    or_raise_cases (Issues env merchant_id s) (extract_lookup_prefix raw) assertion_error _ _ tt
      λ prefix shaped.
        let id = concat "ak_" (env.uuid_hex (s.uuids + 1)) in
        elim (Bool-cases (any (λ q. q.id == id) s.db.api_keys)) [
          | inl taken ↦ rw taken tt
          | inr free ↦ rw free (refl, refl, shaped, refl, refl, refl)
        ]

match-select :
    (hash : String) (test : ApiKey → Bool) (ks : List ApiKey) (k : ApiKey)
    → All (λ q. (q.key_hash == hash) ≡ false) ks
    → test k ≡ true
    → (k.key_hash == hash) ≡ true
    → match_candidate hash (select test (ks ++ k ∷ [])) ≡ some k
unfolding match_candidate
match-select hash test [] k others meets same = rw (meets, same) refl
match-select hash test (q ∷ ks) k (other, others) meets same = elim (Bool-cases (test q)) [
  | inl chosen ↦ rw (chosen, other) (match-select hash test ks k others meets same)
  | inr left ↦ rw left (match-select hash test ks k others meets same)
]

not_empty : (raw prefix : String) → extract_lookup_prefix raw ≡ some prefix → (raw == "") ≡ false
unfolding extract_lookup_prefix
not_empty raw prefix shaped = elim (Bool-cases (raw == "")) [
  | inr given ↦ given
  | inl empty ↦
      let e : raw ≡ "" = ground (arith, eq_iff raw "") in let absurd = rw e at shaped in cc
]

-- A key that `create_api_key` has returned is accepted at once, as its merchant's: if the merchant is
-- in the table and active and no earlier key has the same digest, `verify_api_key` returns the
-- merchant.
pub verify_issued_key :
    (env : Env) (merchant_id name : String) (s : Session) (k : ApiKey) (raw : String) (t : Session)
    (m : Merchant)
    → create_api_key env merchant_id name s ≡ (ok (k, raw), t)
    → All (λ q. (q.key_hash == env.sha256_hex raw) ≡ false) s.db.api_keys
    → find (λ q. q.id == merchant_id) s.db.merchants ≡ some m
    → m.is_active ≡ true
    → (verify_api_key env raw t).0 ≡ ok m
unfolding verify_api_key save_key
verify_issued_key env merchant_id name s k raw t m done others owner live =
    let issues : Issues env merchant_id s (ok (k, raw), t) =
      rw done at (create_api_key-Issues env merchant_id name s) in
    let (keys, merchants, shaped, digest, on, own) = issues in
    rw
      (
        not_empty raw k.key_prefix shaped,
        shaped,
        keys,
        match-select (env.sha256_hex raw) (λ q. q.key_prefix == k.key_prefix) s.db.api_keys k others
            (eq_refl k.key_prefix)
            (ap (λ h. h == env.sha256_hex raw) digest ∙ eq_refl (env.sha256_hex raw)),
        on,
        merchants,
        own,
        owner,
        live,
      )
      refl
