-- ===== src/ApiKeys/KeepsKeys.antt =====
-- The operations of app/services/api_key.py keep what lasts of the table of keys.
use mathlib.Core.Option.{some-injective}
use ix_gateway.Prelude.{
  String, false, not, List, [], ◌∷◌, ◌++◌, ◌≡◌, refl, any, find, select, All, Row, inl, inr, ◌==◌,
  ◌+◌, Bool-cases, map-append,
}
use ix_gateway.Prelude.Text.{concat}
use ix_gateway.Prelude.Dict.{mem}
use ix_gateway.Prelude.Dict.Distinct.{IsDistinct-append, both_false, first_false, second_false}
use ix_gateway.Models.{ApiKey}
use ix_gateway.Env.{Env}
use ix_gateway.Db.{Session, uuid4_hex, token_hex}
use ix_gateway.Db.Query.{query_rule, Row-select}
use ix_gateway.ApiKeys.{
  generate_key, extract_lookup_prefix, match_candidate, new_key, add_key, save_key,
  key_prefix_literal, create_api_key, revoke_api_key, verify_api_key, some,
}
use ix_gateway.ApiKeys.Lasting.{
  key_ids, Kept, KeepsAll, Stays-used, Stays-revoked, KeepsAll-replace_key,
}
use ix_gateway.ApiKeys.Upholds.{UpheldByKeys}
use ix_gateway.Payment.Upholds.{
  OnKeys, Meets, Upholds, Upholds-raised, or_raise_rule, raise_if_rule,
}

Row-append_left : (a : ApiKey) (xs ys : List ApiKey) → Row a xs → Row a (xs ++ ys)
Row-append_left a [] ys r = elim r [ ]
Row-append_left a (x ∷ xs) ys (inl e) = inl e
Row-append_left a (x ∷ xs) ys (inr r) = inr (Row-append_left a xs ys r)

mem-fresh :
    (k : ApiKey) (ks : List ApiKey)
    → any (λ q. q.id == k.id) ks ≡ false
    → mem k.id (key_ids ks) ≡ false
mem-fresh k [] h = refl
mem-fresh k (x ∷ xs) h =
    both_false (x.id == k.id) (mem k.id (key_ids xs))
      (first_false (x.id == k.id) (any (λ q. q.id == k.id) xs) h)
      (mem-fresh k xs (second_false (x.id == k.id) (any (λ q. q.id == k.id) xs) h))

KeepsAll-append :
    (base ks : List ApiKey) (k : ApiKey)
    → any (λ q. q.id == k.id) ks ≡ false
    → KeepsAll base ks
    → KeepsAll base (ks ++ k ∷ [])
KeepsAll-append base ks k fresh (d, all) = (
  rw (map-append (λ r. r.id) ks (k ∷ []))
      (IsDistinct-append (key_ids ks) k.id (mem-fresh k ks fresh) d),
  go base all,
)
  where
    go : (rs : List ApiKey) → All (λ r. Kept r ks) rs → All (λ r. Kept r (ks ++ k ∷ [])) rs
    go [] h = tt
    go (r ∷ rs) (h, hs) = (
      record { now = h.now; row = Row-append_left h.now ks (k ∷ []) h.row; stays = h.stays },
      go rs hs,
    )

Row-match_candidate :
    (hash : String) (ks : List ApiKey) (k : ApiKey) → match_candidate hash ks ≡ some k → Row k ks
unfolding match_candidate
Row-match_candidate hash [] k found = cc
Row-match_candidate hash (x ∷ xs) k found = elim (Bool-cases (x.key_hash == hash)) [
  | inl here ↦ inl (some-injective x k (rw here at found))
  | inr there ↦ inr (Row-match_candidate hash xs k (rw there at found))
]

module _ (base : List ApiKey) (env : Env) where
  create_api_key-OnKeys :
      (mid name : String) (s : Session)
      → Meets (OnKeys (KeepsAll base)) s.db
      → Meets (OnKeys (KeepsAll base)) s.committed
      → Upholds (OnKeys (KeepsAll base)) (create_api_key env mid name s)
  unfolding create_api_key generate_key token_hex uuid4_hex add_key
  create_api_key-OnKeys mid name s h k =
      let raw = concat key_prefix_literal (env.token_hex s.uuids) in
      or_raise_rule (extract_lookup_prefix raw) _ _ (record s { uuids = s.uuids + 1 }) k
        λ prefix _.
          let row =
            new_key (concat "ak_" (env.uuid_hex (s.uuids + 1))) mid prefix (env.sha256_hex raw) name
              s.now in
          elim (Bool-cases (any (λ q. q.id == row.id) s.db.api_keys)) [
            | inl taken ↦ rw taken (Upholds-raised _ _ k)
            | inr free ↦ rw free (
                let after : KeepsAll base (s.db.api_keys ++ row ∷ []) =
                  KeepsAll-append base s.db.api_keys row free h in
                record { books = (after, after) })
          ]

  revoke_api_key-OnKeys :
      (kid mid : String) (s : Session)
      → Meets (OnKeys (KeepsAll base)) s.db
      → Meets (OnKeys (KeepsAll base)) s.committed
      → Upholds (OnKeys (KeepsAll base)) (revoke_api_key kid mid s)
  unfolding revoke_api_key save_key
  revoke_api_key-OnKeys kid mid s h k =
      query_rule (Upholds (OnKeys (KeepsAll base))) _ s.db.api_keys _ s (Upholds-raised _ _ k)
        (λ row found _.
          let after =
            KeepsAll-replace_key s.db.api_keys h.0 row (record row { is_active = false }) found
              (Stays-revoked row) base h.1 in
          record { books = (after, after) })
        (Upholds-raised _ _ k)

  verify_api_key-OnKeys :
      (raw : String) (s : Session)
      → Meets (OnKeys (KeepsAll base)) s.db
      → Meets (OnKeys (KeepsAll base)) s.committed
      → Upholds (OnKeys (KeepsAll base)) (verify_api_key env raw s)
  unfolding verify_api_key save_key
  verify_api_key-OnKeys raw s h k = raise_if_rule (raw == "") _ _ s k λ _.
      or_raise_rule (extract_lookup_prefix raw) _ _ s k λ prefix _.
        let candidates = select (λ (q : ApiKey). q.key_prefix == prefix) s.db.api_keys in
        or_raise_rule (match_candidate (env.sha256_hex raw) candidates) _ _ s k λ key matched.
          raise_if_rule (not key.is_active) _ _ s k λ _.
            or_raise_rule (find (λ m. m.id == key.merchant_id) s.db.merchants) _ _ s k λ m _.
              raise_if_rule (not m.is_active) _ _ s k (λ _.
                let row =
                  (Row-select (λ (q : ApiKey). q.key_prefix == prefix) key s.db.api_keys
                    (Row-match_candidate (env.sha256_hex raw) candidates key matched)).0 in
                let after =
                  KeepsAll-replace_key s.db.api_keys h.0 key
                    (record key { last_used_at = some s.now }) row (Stays-used key (some s.now))
                    base h.1 in
                record { books = (after, after) })

  pub OnKeys-UpheldByKeys : UpheldByKeys (OnKeys (KeepsAll base)) env
  OnKeys-UpheldByKeys = record {
    issues = create_api_key-OnKeys;
    revokes = revoke_api_key-OnKeys;
    verifies = verify_api_key-OnKeys;
  }
