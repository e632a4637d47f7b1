-- ===== src/Db/Query.antt =====
-- A query for one row, and what may be assumed of the row that it finds.
use mathlib.Core.Option.{some-injective}
use ix_gateway.Prelude.{
  find, String, ◌==◌, eq_iff, arith, Bool, true, Option, none, some, List, [], ◌∷◌, ◌≡◌, refl, sym,
  ap, ◌∙◌, inl, inr, select, Row, All, Bool-cases, false, ⊤,
}
use ix_gateway.Errors.{Exn, multiple_results}
use ix_gateway.Db.{
  ok, Session, Result, Exec, raised, scalar_one_or_none, ◌>>=◌, or_raise, raise_if, continue,
}

-- What a selection selects is a row of the table with the property.
pub Row-select :
    {A : Type 0} (test : A → Bool) (a : A) (rows : List A)
    → Row a (select test rows)
    → Row a rows × (test a ≡ true)
Row-select test a [] r = elim r [ ]
Row-select test a (x ∷ rows) r = elim (Bool-cases (test x)) [
  | inl holds ↦ elim (rw holds at r) [
    | inl e ↦ (inl e, ap test (sym e) ∙ holds)
    | inr later ↦ let (row, t) = Row-select test a rows later in (inr row, t)
  ]
  | inr fails ↦ let (row, t) = Row-select test a rows (rw fails at r) in (inr row, t)
]

-- What a search finds is a row of the table with the property.
pub Row-find :
    {A : Type 0} (test : A → Bool) (xs : List A) (a : A)
    → find test xs ≡ some a
    → Row a xs × (test a ≡ true)
Row-find test [] a found = cc
Row-find test (x ∷ xs) a found = elim (Bool-cases (test x)) [
  | inl holds ↦
      let head : x ≡ a = some-injective x a (rw holds at found) in
      (inl head, ap test (sym head) ∙ holds)
  | inr fails ↦ let (row, t) = Row-find test xs a (rw fails at found) in (inr row, t)
]

-- A selection or a search that comes out empty has passed over every row.
All-select-none :
    {A : Type 0} (test : A → Bool) (rows : List A)
    → select test rows ≡ []
    → All (λ a. test a ≡ false) rows
All-select-none test [] e = tt
All-select-none test (x ∷ rows) e = elim (Bool-cases (test x)) [
  | inl holds ↦ let clash : x ∷ select test rows ≡ [] = rw holds at e in cc
  | inr fails ↦ (fails, All-select-none test rows (rw fails at e))
]

pub All-find-none :
    {A : Type 0} (test : A → Bool) (rows : List A)
    → find test rows ≡ none
    → All (λ a. test a ≡ false) rows
All-find-none test [] e = tt
All-find-none test (x ∷ rows) e = elim (Bool-cases (test x)) [
  | inl holds ↦ let clash : some x ≡ none = rw holds at e in cc
  | inr fails ↦ (fails, All-find-none test rows (rw fails at e))
]

-- A text that is equal to a key is compared as the key is.
pub same_key : (k a b : String) → (b == k) ≡ true → (a == b) ≡ (a == k)
same_key k a b h = ground (arith, eq_iff b k, eq_iff a k, eq_iff a b)

module _ {A B : Type 0} (Post : Result B × Session → Type 0) where
  scalar_rule :
      (rows : List A) (f : Option A → Exec B) (s : Session)
      → Post (f none s)
      → ((a : A) → Row a rows → Post (f (some a) s))
      → Post (raised multiple_results, s)
      → Post ((scalar_one_or_none rows >>= f) s)
  scalar_rule [] f s absent found many = absent
  scalar_rule (a ∷ []) f s absent found many = found a (inl refl)
  scalar_rule (a ∷ b ∷ rest) f s absent found many = many

  -- A rule for what follows a query. A query that finds nothing has passed over every row.
  pub query_cases :
      (test : A → Bool) (rows : List A) (f : Option A → Exec B) (s : Session)
      → (All (λ a. test a ≡ false) rows → Post (f none s))
      → ((a : A) → Row a rows → test a ≡ true → Post (f (some a) s))
      → Post (raised multiple_results, s)
      → Post ((scalar_one_or_none (select test rows) >>= f) s)
  query_cases test rows f s absent found many = go (select test rows) refl
    where
      go :
          (chosen : List A) → select test rows ≡ chosen → Post ((scalar_one_or_none chosen >>= f) s)
      go [] e = absent (All-select-none test rows e)
      go (a ∷ []) e = let (row, t) = Row-select test a rows (rw e (inl refl)) in found a row t
      go (a ∷ b ∷ rest) e = many

  pub query_rule :
      (test : A → Bool) (rows : List A) (f : Option A → Exec B) (s : Session)
      → Post (f none s)
      → ((a : A) → Row a rows → test a ≡ true → Post (f (some a) s))
      → Post (raised multiple_results, s)
      → Post ((scalar_one_or_none (select test rows) >>= f) s)
  query_rule test rows f s absent found many =
      scalar_rule (select test rows) f s absent
        (λ a r. let (row, t) = Row-select test a rows r in found a row t) many

-- Rules for the guards.
module _ {B : Type 0} (Post : Result B × Session → Type 0) where
  pub or_raise_cases :
      {A : Type 0} (o : Option A) (e : Exn) (f : A → Exec B) (s : Session)
      → Post (raised e, s)
      → ((a : A) → o ≡ some a → Post (f a s))
      → Post ((or_raise o e >>= f) s)
  or_raise_cases none e f s fails next = fails
  or_raise_cases (some a) e f s fails next = next a refl

  pub raise_if_cases :
      (c : Bool) (e : Exn) (f : ⊤ → Exec B) (s : Session)
      → Post (raised e, s)
      → (c ≡ false → Post (f tt s))
      → Post ((raise_if c e >>= f) s)
  raise_if_cases true e f s fails next = fails
  raise_if_cases false e f s fails next = next refl

  -- The same for a query, with all that it has found.
  pub scalar_cases :
      {A : Type 0} (rows : List A) (f : Option A → Exec B) (s : Session)
      → Post (raised multiple_results, s)
      → (rows ≡ [] → Post (f none s))
      → ((a : A) → rows ≡ a ∷ [] → Post (f (some a) s))
      → Post ((scalar_one_or_none rows >>= f) s)
  scalar_cases [] f s many absent one = absent refl
  scalar_cases (a ∷ []) f s many absent one = one a refl
  scalar_cases (a ∷ b ∷ rest) f s many absent one = many

  pub continue_cases :
      {A : Type 0} (r : Result A) (f : A → Exec B) (s : Session)
      → ((e : Exn) → Post (raised e, s))
      → ((a : A) → r ≡ ok a → Post (f a s))
      → Post (continue r f s)
  continue_cases (ok a) f s fails next = next a refl
  continue_cases (raised e) f s fails next = fails e

  -- The same with the exception that was raised.
  pub gate_cases :
      {A : Type 0} (r : Result A) (f : A → Exec B) (s : Session)
      → ((e : Exn) → r ≡ raised e → Post (raised e, s))
      → ((a : A) → r ≡ ok a → Post (f a s))
      → Post (continue r f s)
  gate_cases (ok a) f s fails next = next a refl
  gate_cases (raised e) f s fails next = fails e refl
