-- ===== src/Html.antt =====
-- main.py: the texts of the hosted pages: escapes, amounts and the substitution of tokens.
pub mod Harmless
pub mod Amount
pub mod Float
use Prim.Native.Char.{Char, code}
use Prim.Native.String.{[], ◌∷◌, char_at}
use ix_gateway.Html.Float.{finer, shown_cents}
use ix_gateway.Prelude.{
  ℕ, zero, suc, ◌+◌, ◌-◌, ◌/◌, ◌%◌, List, [], ◌∷◌, ◌≡◌, refl, String, Bool, true, false, ◌||◌, ◌&&◌,
  Option, none, some, ltb, leb, if◌then◌else◌, ◌==◌,
}
use ix_gateway.Prelude.Int.{ℤ, pos, negsuc}
use ix_gateway.Prelude.Text.{concat, lower, count, strip_prefix, or_default}
use ix_gateway.Prelude.Dict.{is_some}

abbrev pub between : ℕ → ℕ → ℕ → Bool
between low high n = leb low n && leb n high

abbrev pub is_char : ℕ → Char → Bool
is_char n c = between n n (code c)

-- `&`, `<`, `>`, `"` and `'`
abbrev pub escape_char : Char → String
escape_char c =
    if is_char 38 c
    then "&amp;"
    else if is_char 60 c
    then "&lt;"
    else if is_char 62 c
    then "&gt;"
    else if is_char 34 c
    then "&quot;"
    else if is_char 39 c
    then "&#x27;"
    else c ∷ ""

-- `html.escape`, with the quotes.
unfoldable pub html_escape : String → String
html_escape [] = ""
html_escape (c ∷ s) = concat (escape_char c) (html_escape s)

-- The white space of `str.lstrip`.
abbrev pub is_space : Char → Bool
is_space c =
    between 9 13 (code c)
    || between 28 32 (code c)
    || between 133 133 (code c)
    || between 160 160 (code c)
    || between 5760 5760 (code c)
    || between 8192 8202 (code c)
    || between 8232 8233 (code c)
    || between 8239 8239 (code c)
    || between 8287 8287 (code c)
    || between 12288 12288 (code c)

unfoldable pub lstrip : String → String
lstrip [] = []
lstrip (c ∷ s) = elim (is_space c) [ true ↦ lstrip s | false ↦ c ∷ s ]

abbrev pub starts_with : String → String → Bool
starts_with p s = is_some (strip_prefix p s)

abbrev pub is_web : String → Bool
is_web url =
    starts_with "http://" (lstrip (lower url)) || starts_with "https://" (lstrip (lower url))

unfoldable pub url_escape : String → String
url_escape [] = ""
url_escape (c ∷ s) = if is_web (c ∷ s) then html_escape (c ∷ s) else ""

-- `s.replace(old, new)` for an `old` that is not empty; `skip` counts what is left of a match.
unfoldable pub replace_from : (skip : ℕ) (old new : String) → String → String
replace_from skip old new [] = []
replace_from (suc n) old new (c ∷ s) = replace_from n old new s
replace_from zero old new (c ∷ s) = elim (starts_with old (c ∷ s)) [
  | true ↦ concat new (replace_from (count old - 1) old new s)
  | false ↦ c ∷ replace_from zero old new s
]

unfoldable pub substitute : List (String × String) → String → String
unfolding replace_from
substitute [] out = out
substitute ((token, value) ∷ subs) out = substitute subs (replace_from 0 token value out)

abbrev pub digit : ℕ → Char
digit n = char_at "0123456789" n

-- A group of three digits behind a comma, and the first group.
abbrev pub three : ℕ → String
three n = digit (n / 100) ∷ digit (n / 10 % 10) ∷ digit (n % 10) ∷ ""

abbrev pub leading : ℕ → String
leading n =
    if ltb n 10
    then digit n ∷ ""
    else if ltb n 100
    then digit (n / 10) ∷ digit (n % 10) ∷ ""
    else three n

abbrev pub split_group : Bool → ℕ → (ℕ → String) → String
split_group true n again = leading n
split_group false n again = concat (again (n / 1000)) (concat "," (three (n % 1000)))

-- The digits of a number in groups of three, the `,` of a format. Each round reads a group.
unfoldable pub grouped : (fuel n : ℕ) → String
grouped zero n = ""
grouped (suc fuel) n = split_group (ltb n 1000) n (grouped fuel)

-- A number of cents with a point before the last two digits.
abbrev pub cents : ℕ → String
cents n =
    concat (grouped (n + 1) (n / 100)) (concat "." (digit (n / 10 % 10) ∷ digit (n % 10) ∷ ""))

-- `f"{amount / 100:,.2f}"`
abbrev pub format_cents : ℤ → String
format_cents (pos n) = cents (shown_cents n)
format_cents (negsuc n) = concat "-" (cents (shown_cents (suc n)))

unfoldable pub upper : String → String
upper [] = []
upper (c ∷ s) =
    (if between 97 122 (code c) then char_at "ABCDEFGHIJKLMNOPQRSTUVWXYZ" (code c - 97) else c)
    ∷ upper s

unfoldable pub format_amount : ℤ → String → String
format_amount amount currency =
    if upper currency == "USD"
    then concat "$" (format_cents amount)
    else concat (upper currency) (concat " " (format_cents amount))

format_usd : format_amount (pos 1234567) "usd" ≡ "$12,345.67"
unfolding format_amount grouped upper shown_cents finer
format_usd = refl

format_cad : format_amount (pos 100005) "cad" ≡ "CAD 1,000.05"
unfolding format_amount grouped upper shown_cents finer
format_cad = refl
