-- ===== src/Gateway/Keys.antt =====
-- The API keys over every history of requests.
use ix_gateway.Prelude.{
  ℕ, String, true, false, not, some, List, [], ◌∷◌, ◌≡◌, refl, sym, ◌∙◌, ap, ◌⊎◌, inl, inr, All,
  All-Row, Row, ◌==◌,
}
use ix_gateway.Prelude.Text.{lower}
use ix_gateway.Prelude.Dict.Distinct.{IsDistinct}
use ix_gateway.Errors.{app, unauthorized_error}
use ix_gateway.Models.{ApiKey, Merchant}
use ix_gateway.Env.{Env}
use ix_gateway.Db.{Session, Result, ok, raised}
use ix_gateway.Db.Query.{raise_if_cases}
use ix_gateway.Payment.Upholds.{OnKeys, Meets}
use ix_gateway.Payment.KeepsKeys.{OnKeys-UpheldByPayments}
use ix_gateway.ApiKeys.{verify_api_key}
use ix_gateway.ApiKeys.Lasting.{key_ids, key_of_id, Stays-used, Kept, KeepsAll}
use ix_gateway.ApiKeys.KeepsKeys.{OnKeys-UpheldByKeys}
use ix_gateway.ApiKeys.Verify.{Authorises, Verifies, verify_api_key-Verifies}
use ix_gateway.Auth.{Credentials, require_api_key}
use ix_gateway.Gateway.{Request, run}
use ix_gateway.Gateway.Upholds.{run-Meets}

All-Kept : (rs ks : List ApiKey) → ((r : ApiKey) → Row r rs → Row r ks) → All (λ r. Kept r ks) rs
All-Kept [] ks within = tt
All-Kept (r ∷ rs) ks within = (
  record { now = r; row = within r (inl refl); stays = Stays-used r r.last_used_at },
  All-Kept rs ks (λ x row. within x (inr row)),
)

run-Keeps :
    (env : Env) (rs : List (ℕ × Request)) (s : Session)
    → s.db ≡ s.committed
    → IsDistinct (key_ids s.committed.api_keys)
    → Meets (OnKeys (KeepsAll s.committed.api_keys)) (run env rs s).db
      × Meets (OnKeys (KeepsAll s.committed.api_keys)) (run env rs s).committed
run-Keeps env rs s rests distinct =
    let ks = s.committed.api_keys in
    let now : Meets (OnKeys (KeepsAll ks)) s.committed =
      (distinct, All-Kept ks ks (λ r here. here)) in
    run-Meets env (OnKeys-UpheldByKeys ks env) (OnKeys-UpheldByPayments (KeepsAll ks) env) rs s
      (rw rests now) now

-- If nothing is pending in a session and no two of its API keys have one id, then a key of the
-- committed table stays there over every history of requests, with its id, merchant, prefix, hash,
-- name and creation time; and if it was revoked, it is still revoked.
run-Kept :
    (env : Env) (rs : List (ℕ × Request)) (s : Session) (k : ApiKey)
    → s.db ≡ s.committed
    → IsDistinct (key_ids s.committed.api_keys)
    → Row k s.committed.api_keys
    → Kept k (run env rs s).committed.api_keys
run-Kept env rs s k rests distinct row =
    All-Row (λ r. Kept r (run env rs s).committed.api_keys) k s.committed.api_keys
      (run-Keeps env rs s rests distinct).1.1 row

-- Every key of a table with this digest has this id.
abbrev pub OnlyKey : (digest id : String) → List ApiKey → Type 0
OnlyKey digest id ks = All (λ q. ((q.key_hash == digest) ≡ false) ⊎ (q.id ≡ id)) ks

-- If nothing is pending in a session, no two of its API keys have one id, and a committed key is
-- revoked, then after every history of requests `require_api_key` refuses credentials whose digest
-- no other key has by then: it raises the unauthorized error and changes nothing.
pub run-Rejects :
    (env : Env) (rs : List (ℕ × Request)) (s : Session) (k : ApiKey) (given : Credentials)
    → s.db ≡ s.committed
    → IsDistinct (key_ids s.committed.api_keys)
    → Row k s.committed.api_keys
    → k.is_active ≡ false
    → OnlyKey (env.sha256_hex given.credentials) k.id (run env rs s).db.api_keys
    → require_api_key env (some given) (run env rs s)
      ≡ (raised (app unauthorized_error), run env rs s)
unfolding require_api_key
run-Rejects env rs s k given rests distinct row revoked only =
    let t = run env rs s in
    let digest = env.sha256_hex given.credentials in
    let kept = run-Keeps env rs s rests distinct in
    let last = All-Row (λ r. Kept r t.db.api_keys) k s.committed.api_keys kept.0.1 row in
    raise_if_cases (λ r. r ≡ (raised (app unauthorized_error), t))
      (not (lower given.scheme == "bearer")) (app unauthorized_error) _ t refl
      λ _.
        refused t given.credentials (verify_api_key env given.credentials t)
          (verify_api_key-Verifies env given.credentials t)
          (λ m right.
            elim (All-Row (λ q. ((q.key_hash == digest) ≡ false) ⊎ (q.id ≡ k.id)) right.key
              t.db.api_keys only right.stored) [
                | inl other ↦ let clash : true ≡ false = sym right.digest ∙ other in cc
                | inr same ↦
                    let e : right.key ≡ last.now =
                      key_of_id right.key last.now t.db.api_keys kept.0.0 right.stored last.row
                        (same ∙ sym last.stays.id) in
                    elim last.stays.revoked [
                      | inl active ↦ let clash : true ≡ false = sym active ∙ revoked in cc
                      | inr off ↦
                          let clash : true ≡ false =
                            sym right.key_active ∙ ap (λ q. q.is_active) e ∙ off in
                          cc
                    ]
              ])
  where
    refused :
        (t : Session) (raw : String) (out : Result Merchant × Session)
        → Verifies env raw t out
        → ((m : Merchant) → ¬ Authorises env raw t m)
        → out ≡ (raised (app unauthorized_error), t)
    refused t raw (ok m, u) right never = elim (never m right) [ ]
    refused t raw (raised e, u) (same, still) never = rw (same, still) refl
