-- ===== src/ApiKeys/Lasting.antt =====
-- What lasts of the table of API keys: no row is lost, and a revoked key stays revoked.
use mathlib.Core.Path.{subst}
use ix_gateway.Prelude.{
  ℕ, String, true, false, Option, List, [], ◌∷◌, ◌≡◌, refl, sym, ◌∙◌, ap, ◌⊎◌, inl, inr, map, All,
  Row, Bool-cases, ◌==◌, eq_refl,
}
use ix_gateway.Prelude.Dict.{or_true, mem, eq_of_==}
use ix_gateway.Prelude.Dict.Distinct.{IsDistinct}
use ix_gateway.Models.{ApiKey}
use ix_gateway.ApiKeys.{replace_key}

abbrev pub key_ids : List ApiKey → List String
key_ids ks = map (λ k. k.id) ks

-- A later state `q` of the row `k`: the same key, and still revoked if `k` is.
pub record Stays (k q : ApiKey) : Type 0 where
  pub id : q.id ≡ k.id
  pub merchant_id : q.merchant_id ≡ k.merchant_id
  pub key_prefix : q.key_prefix ≡ k.key_prefix
  pub key_hash : q.key_hash ≡ k.key_hash
  pub name : q.name ≡ k.name
  pub created_at : q.created_at ≡ k.created_at
  pub revoked : (k.is_active ≡ true) ⊎ (q.is_active ≡ false)

pub record Kept (k : ApiKey) (ks : List ApiKey) : Type 0 where
  pub now : ApiKey
  pub row : Row now ks
  pub stays : Stays k now

-- Every row of `base` is kept, and no two keys have one id.
abbrev pub KeepsAll : List ApiKey → List ApiKey → Type 0
KeepsAll base ks = IsDistinct (key_ids ks) × All (λ k. Kept k ks) base

-- A use of the key.
pub Stays-used : (k : ApiKey) (at : Option ℕ) → Stays k (record k { last_used_at = at })
Stays-used k at = record {
  id = refl;
  merchant_id = refl;
  key_prefix = refl;
  key_hash = refl;
  name = refl;
  created_at = refl;
  revoked = Bool-cases k.is_active;
}

pub Stays-revoked : (k : ApiKey) → Stays k (record k { is_active = false })
Stays-revoked k = record {
  id = refl;
  merchant_id = refl;
  key_prefix = refl;
  key_hash = refl;
  name = refl;
  created_at = refl;
  revoked = inr refl;
}

Stays-trans : {a b c : ApiKey} → Stays a b → Stays b c → Stays a c
Stays-trans {a} {b} {c} x y = record {
  id = y.id ∙ x.id;
  merchant_id = y.merchant_id ∙ x.merchant_id;
  key_prefix = y.key_prefix ∙ x.key_prefix;
  key_hash = y.key_hash ∙ x.key_hash;
  name = y.name ∙ x.name;
  created_at = y.created_at ∙ x.created_at;
  revoked = join x.revoked y.revoked;
}
  where
    join :
        (a.is_active ≡ true) ⊎ (b.is_active ≡ false)
        → (b.is_active ≡ true) ⊎ (c.is_active ≡ false)
        → (a.is_active ≡ true) ⊎ (c.is_active ≡ false)
    join (inl active) _ = inl active
    join (inr off) (inl on) = let clash : true ≡ false = sym on ∙ off in inl cc
    join (inr off) (inr still) = inr still

mem-Row : (k : ApiKey) (ks : List ApiKey) → Row k ks → mem k.id (key_ids ks) ≡ true
mem-Row k [] row = elim row [ ]
mem-Row k (x ∷ xs) (inl e) = rw (e, eq_refl k.id) refl
mem-Row k (x ∷ xs) (inr row) = rw (mem-Row k xs row) (or_true (x.id == k.id))

-- With one row for each id, the id tells the row.
pub key_of_id :
    (a b : ApiKey) (ks : List ApiKey)
    → IsDistinct (key_ids ks)
    → Row a ks
    → Row b ks
    → a.id ≡ b.id
    → a ≡ b
key_of_id a b [] d ra rb same = elim ra [ ]
key_of_id a b (x ∷ xs) (apart, d) (inl e) (inl f) same = sym e ∙ f
key_of_id a b (x ∷ xs) (apart, d) (inl e) (inr rb) same =
    let clash : true ≡ false =
      sym (mem-Row b xs rb)
      ∙ subst (λ i. mem i (key_ids xs) ≡ false) (ap (λ r. r.id) e ∙ same) apart in
    cc
key_of_id a b (x ∷ xs) (apart, d) (inr ra) (inl f) same =
    let clash : true ≡ false =
      sym (mem-Row a xs ra)
      ∙ subst (λ i. mem i (key_ids xs) ≡ false) (ap (λ r. r.id) f ∙ sym same) apart in
    cc
key_of_id a b (x ∷ xs) (apart, d) (inr ra) (inr rb) same = key_of_id a b xs d ra rb same

key_ids-replace_key : (q : ApiKey) (ks : List ApiKey) → key_ids (replace_key q ks) ≡ key_ids ks
key_ids-replace_key q [] = refl
key_ids-replace_key q (x ∷ xs) = elim (Bool-cases (x.id == q.id)) [
  | inl found ↦ rw (found, eq_of_== x.id q.id found, key_ids-replace_key q xs) refl
  | inr other ↦ rw (other, key_ids-replace_key q xs) refl
]

Row-replace_key :
    (r q : ApiKey) (ks : List ApiKey)
    → Row r ks
    → Row r (replace_key q ks) ⊎ ((r.id ≡ q.id) × Row q (replace_key q ks))
Row-replace_key r q [] row = elim row [ ]
Row-replace_key r q (x ∷ xs) (inl e) = elim (Bool-cases (x.id == q.id)) [
  | inl found ↦ inr (ap (λ y. y.id) (sym e) ∙ eq_of_== x.id q.id found, rw found (inl refl))
  | inr other ↦ inl (rw other (inl e))
]
Row-replace_key r q (x ∷ xs) (inr row) = elim (Row-replace_key r q xs row) [
  | inl there ↦ inl (inr there)
  | inr (same, there) ↦ inr (same, inr there)
]

module _ (ks : List ApiKey) (d : IsDistinct (key_ids ks)) (k q : ApiKey) (row : Row k ks)
    (stays : Stays k q) where
  Kept-replace_key : (r : ApiKey) → Kept r ks → Kept r (replace_key q ks)
  Kept-replace_key r kept = elim (Row-replace_key kept.now q ks kept.row) [
    | inl there ↦ record { now = kept.now; row = there; stays = kept.stays }
    | inr (same, there) ↦
        let e : kept.now ≡ k = key_of_id kept.now k ks d kept.row row (same ∙ stays.id) in
        record {
          now = q;
          row = there;
          stays = Stays-trans kept.stays (subst (λ y. Stays y q) (sym e) stays);
        }
  ]

  pub KeepsAll-replace_key :
      (base : List ApiKey) → All (λ r. Kept r ks) base → KeepsAll base (replace_key q ks)
  KeepsAll-replace_key base all = (rw (key_ids-replace_key q ks) d, go base all)
    where
      go : (rs : List ApiKey) → All (λ r. Kept r ks) rs → All (λ r. Kept r (replace_key q ks)) rs
      go [] h = tt
      go (r ∷ rs) (h, hs) = (Kept-replace_key r h, go rs hs)
