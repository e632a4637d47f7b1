-- ===== src/Prelude/Text.antt =====
-- Texts: `str.lower` on ASCII letters, the truth value of a text, and prefixes.
pub mod Prefix
-- `s + t`
pub use Prim.Native.String.{◌++◌ as concat}
use Prim.Native.Char.{Char, code}
use Prim.Native.Nat.{ℕ, zero, suc, ◌-◌}
use Prim.Native.String.{String, [], ◌∷◌, char_at}
use mathlib.Core.Path.{◌≡◌, refl}
use mathlib.Core.Bool.{◌&&◌}
use mathlib.Core.Option.{Option, none, some}
use ix_gateway.Prelude.Tests.{leb, ◌==◌, if◌then◌else◌}

-- A character outside A-Z stays: the program lowers currency codes, e-mail addresses and schemes.
abbrev lower_char : Char → Char
lower_char c =
    if leb 65 (code c) && leb (code c) 90
    then char_at "abcdefghijklmnopqrstuvwxyz" (code c - 65)
    else c

unfoldable pub lower : String → String
lower [] = []
lower (c ∷ s) = lower_char c ∷ lower s

-- `x if x else None`: an empty text counts as missing.
abbrev pub truthy : Option String → Option String
truthy none = none
truthy (some []) = none
truthy (some (c ∷ s)) = some (c ∷ s)

-- `x or default`
abbrev pub or_default : Option String → String → String
or_default none d = d
or_default (some []) d = d
or_default (some (c ∷ s)) d = c ∷ s

-- `len(s)`, and `s[:n]`
abbrev pub count : String → ℕ
count [] = 0
count (c ∷ s) = suc (count s)

abbrev pub take : ℕ → String → String
take zero s = []
take (suc n) [] = []
take (suc n) (c ∷ s) = c ∷ take n s

-- `s[len(p):] if s.startswith(p) else None`
abbrev pub strip_prefix : String → String → Option String
strip_prefix [] s = some s
strip_prefix (c ∷ p) [] = none
strip_prefix (c ∷ p) (d ∷ s) =
    let rest = strip_prefix p s in if code c == code d then rest else none

lower_usd : lower "USd-7" ≡ "usd-7"
unfolding lower
lower_usd = refl
