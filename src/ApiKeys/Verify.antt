-- ===== src/ApiKeys/Verify.antt =====
-- What a verified key stands for.
use mathlib.Core.Option.{some-injective}
use ix_gateway.Prelude.{
  String, Bool, true, false, not, some, List, [], ◌∷◌, ◌≡◌, refl, sym, ◌∙◌, ap, inl, inr, find,
  select, Row, Bool-cases, ◌==◌,
}
use ix_gateway.Errors.{app, unauthorized_error}
use ix_gateway.Models.{ApiKey, Merchant}
use ix_gateway.Env.{Env}
use ix_gateway.Db.{Session, Result, ok, raised}
use ix_gateway.Db.Query.{Row-find, Row-select, or_raise_cases, raise_if_cases}
use ix_gateway.ApiKeys.{match_candidate, extract_lookup_prefix, save_key, verify_api_key}

Row-match_candidate :
    (hash : String) (ks : List ApiKey) (k : ApiKey)
    → match_candidate hash ks ≡ some k
    → Row k ks × ((k.key_hash == hash) ≡ true)
unfolding match_candidate
Row-match_candidate hash [] k found = cc
Row-match_candidate hash (x ∷ xs) k found = elim (Bool-cases (x.key_hash == hash)) [
  | inl holds ↦
      let head : x ≡ k = some-injective x k (rw holds at found) in
      (inl head, ap (λ y. y.key_hash == hash) (sym head) ∙ holds)
  | inr fails ↦ let (row, t) = Row-match_candidate hash xs k (rw fails at found) in (inr row, t)
]

-- A merchant may act with a key: an active row has its digest, and its owner is active.
pub record Authorises (env : Env) (raw_key : String) (s : Session) (m : Merchant) : Type 0 where
  pub key : ApiKey
  pub stored : Row key s.db.api_keys
  pub digest : (key.key_hash == env.sha256_hex raw_key) ≡ true
  pub key_active : key.is_active ≡ true
  pub known : Row m s.db.merchants
  pub owner : (m.id == key.merchant_id) ≡ true
  pub owner_active : m.is_active ≡ true

abbrev pub Verifies : Env → String → Session → Result Merchant × Session → Type 0
Verifies env raw_key s (ok m, t) = Authorises env raw_key s m
Verifies env raw_key s (raised e, t) = (e ≡ app unauthorized_error) × (t ≡ s)

active_of_not : (b : Bool) → not b ≡ false → b ≡ true
active_of_not true h = refl
active_of_not false h = cc

-- `verify_api_key` refuses every key with the same error and leaves the session as it was, or it
-- returns an active merchant, who owns an active key whose stored digest is the digest of the key
-- that was given.
pub verify_api_key-Verifies :
    (env : Env) (raw_key : String) (s : Session)
    → Verifies env raw_key s (verify_api_key env raw_key s)
unfolding verify_api_key save_key
verify_api_key-Verifies env raw_key s =
    let Post = Verifies env raw_key s in
    let unauthorized = app unauthorized_error in
    raise_if_cases Post (raw_key == "") unauthorized _ s (refl, refl)
      λ _.
        or_raise_cases Post (extract_lookup_prefix raw_key) unauthorized _ s (refl, refl)
          λ prefix _.
            let candidates = select (λ k. k.key_prefix == prefix) s.db.api_keys in
            let hash = env.sha256_hex raw_key in
            or_raise_cases Post (match_candidate hash candidates) unauthorized _ s (refl, refl)
              λ key matched.
                raise_if_cases Post (not key.is_active) unauthorized _ s (refl, refl)
                  λ on.
                    or_raise_cases Post (find (λ m. m.id == key.merchant_id) s.db.merchants)
                      unauthorized _ s (refl, refl)
                      λ m found.
                        raise_if_cases Post (not m.is_active) unauthorized _ s (refl, refl)
                          λ live.
                            let (row, same) = Row-match_candidate hash candidates key matched in
                            let (known, owns) =
                              Row-find (λ q. q.id == key.merchant_id) s.db.merchants m found in
                            record {
                              key = key;
                              stored =
                                  (Row-select (λ q. q.key_prefix == prefix) key s.db.api_keys
                                    row).0;
                              digest = same;
                              key_active = active_of_not key.is_active on;
                              known = known;
                              owner = owns;
                              owner_active = active_of_not m.is_active live;
                            }
