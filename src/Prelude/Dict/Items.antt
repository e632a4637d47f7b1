-- ===== src/Prelude/Dict/Items.antt =====
-- What holds of all the items of a dictionary.
use mathlib.Core.Path.{◌≡◌, refl, sym, ◌∙◌, ap}
use mathlib.Core.Bool.{true, false}
use mathlib.Core.Option.{some}
use mathlib.Core.List.{List, [], ◌∷◌}
use mathlib.Core.Logic.{inl, inr}
use Prim.Native.String.{String}
use text.Mathlib.Text.{◌==◌}
use text.Mathlib.TextPositions.{eq_refl}
use ix_gateway.Prelude.Tests.{Bool-cases}
use ix_gateway.Prelude.Dict.{
  get, keys, mem, mem-keys, is_some, leb_text, insert_item, sorted_items, eq_of_==,
}
use ix_gateway.Prelude.Dict.Distinct.{IsDistinct}

module _ {A : Type 0} (P : String → A → Type 0) where
  abbrev pub Items : List (String × A) → Type 0
  Items [] = Unit
  Items ((k, v) ∷ d) = P k v × Items d

  -- An item of the rest has another key than the first.
  later :
      (k j : String) (v w : A) (d : List (String × A))
      → mem k (keys d) ≡ false
      → get j d ≡ some w
      → get j ((k, v) ∷ d) ≡ some w
  unfolding get
  later k j v w d apart found = elim (Bool-cases (k == j)) [
    | inl same ↦
        let clash : false ≡ true =
          sym apart
          ∙ mem-keys k d
          ∙ ap (λ x. is_some (get x d)) (eq_of_== k j same)
          ∙ ap is_some found in
        cc
    | inr other ↦ rw other found
  ]

  -- With each key in one place, what holds of all lookups holds of all items.
  pub Items-get :
      (d : List (String × A))
      → IsDistinct (keys d)
      → ((k : String) (v : A) → get k d ≡ some v → P k v)
      → Items d
  unfolding get
  Items-get [] distinct h = tt
  Items-get ((k, v) ∷ d) (apart, distinct) h = (
    h k v (rw (eq_refl k) refl),
    Items-get d distinct (λ j w found. h j w (later k j v w d apart found)),
  )

  Items-insert_item :
      (k : String) (v : A) (d : List (String × A)) → P k v → Items d → Items (insert_item k v d)
  unfolding insert_item
  Items-insert_item k v [] p h = (p, tt)
  Items-insert_item k v ((j, w) ∷ d) p (q, h) = elim (Bool-cases (leb_text k j)) [
    | inl low ↦ rw low (p, (q, h))
    | inr high ↦ rw high (q, Items-insert_item k v d p h)
  ]

  pub Items-sorted_items : (d : List (String × A)) → Items d → Items (sorted_items d)
  unfolding sorted_items
  Items-sorted_items [] h = tt
  Items-sorted_items ((k, v) ∷ d) (p, h) =
      Items-insert_item k v (sorted_items d) p (Items-sorted_items d h)
