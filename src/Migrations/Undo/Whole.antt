-- ===== src/Migrations/Undo/Whole.antt =====
-- A whole migration, undone.
use mathlib.Core.Path.{subst}
use mathlib.Core.Option.{some-injective}
use ix_gateway.Prelude.{
  none, some, Option-cases, List, [], ◌∷◌, ◌++◌, ◌≡◌, refl, ◌∙◌, sym, ap, inl, inr, All,
}
use ix_gateway.Migrations.{
  Schema, Operation, create_enum, drop_enum, create_table, drop_table, create_index, drop_index,
  add_column, drop_column, apply, run,
}
use ix_gateway.Migrations.Closed.{IsClosed}
use ix_gateway.Migrations.Undo.{
  inverse, undo, IsForward, IsNew, IsUndone, create_enum-IsUndone, create_table-IsUndone,
  create_index-IsUndone,
}
use ix_gateway.Migrations.Undo.Columns.{add_column-IsUndone}

-- A run of operations in which each enum that is created is new.
pub data CleanRun : List Operation → Schema → Schema → Type 0 where
  done : {s : Schema} → CleanRun [] s s
  step :
      {o : Operation} {os : List Operation} {s t u : Schema}
      → IsNew o s
      → apply o s ≡ some t
      → CleanRun os t u
      → CleanRun (o ∷ os) s u

IsUndone-forward :
    (o : Operation) (s : Schema) → IsClosed s → IsForward o → IsNew o s → IsUndone o s
IsUndone-forward (create_enum e) s closed f new = create_enum-IsUndone e s closed new
IsUndone-forward (create_table t) s closed f new = create_table-IsUndone t s closed
IsUndone-forward (create_index i) s closed f new = create_index-IsUndone i s closed
IsUndone-forward (add_column t c) s closed f new = add_column-IsUndone t c s closed
IsUndone-forward (drop_enum e) s closed f new = elim f [ ]
IsUndone-forward (drop_table t) s closed f new = elim f [ ]
IsUndone-forward (drop_index i t) s closed f new = elim f [ ]
IsUndone-forward (drop_column t c) s closed f new = elim f [ ]

run-append :
    (os ps : List Operation) (s t : Schema) → run os s ≡ some t → run (os ++ ps) s ≡ run ps t
unfolding run
run-append [] ps s t h = ap (run ps) (some-injective s t h)
run-append (o ∷ os) ps s t h = elim (Option-cases (apply o s)) [
  | inl failed ↦ let clash : none ≡ some t = (rw failed at h) in cc
  | inr (u, applied) ↦ rw applied (run-append os ps u t (rw applied at h))
]

-- A run of creates and adds from a closed schema is undone by the inverses in reverse order.
pub run-undo :
    (os : List Operation) (s t : Schema)
    → IsClosed s
    → All IsForward os
    → CleanRun os s t
    → run (undo os) t ≡ some s
unfolding run
run-undo [] s _ closed forward done = refl
run-undo (o ∷ os) s t closed (f, forward) (step {t = u} new applied rest) =
    elim (IsUndone-forward o s closed f new) [
      | inl failed ↦ let clash : none ≡ some u = sym failed ∙ applied in cc
      | inr (v, applied', undone, closed') ↦
          let same : v ≡ u = some-injective v u (sym applied' ∙ applied) in
          let undone' : apply (inverse o) u ≡ some s =
            subst (λ x. apply (inverse o) x ≡ some s) same undone in
          run-append (undo os) (inverse o ∷ []) t u
            (run-undo os u t (subst IsClosed same closed') forward rest)
          ∙ rw undone' refl
    ]
