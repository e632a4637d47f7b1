-- ===== src/Settings/DatabaseUrl.antt =====
-- The database URL that the validator leaves.
use Prim.Native.String.{char_at}
use mathlib.Core.Path.{subst}
use text.Mathlib.TextLemmas.{append_assoc}
use ix_gateway.Prelude.{◌⊎◌, String, none, ◌≡◌, refl, ◌∙◌, sym, ap, inl, inr, Option-cases}
use ix_gateway.Prelude.Text.{concat, strip_prefix}
use ix_gateway.Prelude.Text.Prefix.{
  apart, strip_prefix-concat, strip_prefix-front, strip_prefix-some,
}
use ix_gateway.Settings.{force_asyncpg_driver}

-- A URL that names a driver is no bare one.
driver_long : (r : String) → strip_prefix "postgresql://" (concat "postgresql+" r) ≡ none
driver_long r =
    ap (strip_prefix "postgresql://") (append_assoc "postgresql" "+" r)
    ∙ strip_prefix-concat "postgresql" "://" (concat "+" r)
    ∙ apart (char_at "://" 0) (char_at "+" 0) "//" "" r refl

driver_short : (r : String) → strip_prefix "postgres://" (concat "postgresql+" r) ≡ none
driver_short r =
    ap (strip_prefix "postgres://") (append_assoc "postgres" "ql+" r)
    ∙ strip_prefix-concat "postgres" "://" (concat "ql+" r)
    ∙ apart (char_at "://" 0) (char_at "ql+" 0) "//" "l+" r refl

asyncpg_url :
    (r : String) → concat "postgresql+asyncpg://" r ≡ concat "postgresql+" (concat "asyncpg://" r)
asyncpg_url r = append_assoc "postgresql+" "asyncpg://" r

-- A URL that the validator leaves alone, and that is not bare.
abbrev IsSettled : String → Type 0
IsSettled v =
    (force_asyncpg_driver v ≡ v)
    × (strip_prefix "postgresql://" v ≡ none)
    × (strip_prefix "postgres://" v ≡ none)

IsSettled-driver : (r : String) → IsSettled (concat "postgresql+" r)
unfolding force_asyncpg_driver
IsSettled-driver r = (rw (strip_prefix-front "postgresql+" r) refl, driver_long r, driver_short r)

IsSettled-asyncpg : (r : String) → IsSettled (concat "postgresql+asyncpg://" r)
IsSettled-asyncpg r =
    subst IsSettled (sym (asyncpg_url r)) (IsSettled-driver (concat "asyncpg://" r))

-- How the validator gets from a URL to another.
abbrev pub Rewrites : String → String → Type 0
Rewrites v w =
    (w ≡ v)
    ⊎ ((rest : String) × ((v ≡ concat "postgresql://" rest) ⊎ (v ≡ concat "postgres://" rest))
        × (w ≡ concat "postgresql+asyncpg://" rest))

becomes :
    (v w : String)
    → force_asyncpg_driver v ≡ w
    → Rewrites v w
    → IsSettled w
    → Rewrites v (force_asyncpg_driver v)
      × (force_asyncpg_driver (force_asyncpg_driver v) ≡ force_asyncpg_driver v)
      × (strip_prefix "postgresql://" (force_asyncpg_driver v) ≡ none)
      × (strip_prefix "postgres://" (force_asyncpg_driver v) ≡ none)
becomes v w e rewrites (again, long, short) = rw e (rewrites, again, long, short)

-- The validator changes nothing but the scheme of a URL that starts with postgresql:// or
-- postgres://, to postgresql+asyncpg://. What it leaves starts with neither, and is left as it is
-- when the validator reads it again.
pub force_asyncpg_driver-Rewrites :
    (v : String)
    → Rewrites v (force_asyncpg_driver v)
      × (force_asyncpg_driver (force_asyncpg_driver v) ≡ force_asyncpg_driver v)
      × (strip_prefix "postgresql://" (force_asyncpg_driver v) ≡ none)
      × (strip_prefix "postgres://" (force_asyncpg_driver v) ≡ none)
unfolding force_asyncpg_driver
force_asyncpg_driver-Rewrites v = elim (Option-cases (strip_prefix "postgresql+" v)) [
  | inr (r, driver) ↦
      becomes v v (rw driver refl) (inl refl)
        (subst IsSettled (sym (strip_prefix-some "postgresql+" v r driver)) (IsSettled-driver r))
  | inl no_driver ↦ elim (Option-cases (strip_prefix "postgresql://" v)) [
    | inr (r, long) ↦
        becomes v (concat "postgresql+asyncpg://" r) (rw (no_driver, long) refl)
          (inr (r, inl (strip_prefix-some "postgresql://" v r long), refl)) (IsSettled-asyncpg r)
    | inl no_long ↦ elim (Option-cases (strip_prefix "postgres://" v)) [
      | inr (r, short) ↦
          becomes v (concat "postgresql+asyncpg://" r) (rw (no_driver, no_long, short) refl)
            (inr (r, inr (strip_prefix-some "postgres://" v r short), refl)) (IsSettled-asyncpg r)
      | inl no_short ↦
          let same : force_asyncpg_driver v ≡ v = rw (no_driver, no_long, no_short) refl in
          becomes v v same (inl refl) (same, no_long, no_short)
    ]
  ]
]
