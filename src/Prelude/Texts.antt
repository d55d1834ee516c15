-- ===== src/Prelude/Texts.antt =====
-- Texts as lists of code points, and the character classes of the source's regular expressions.
use Prim.Native.Nat.{ℕ, zero, suc, ◌+◌, ◌-◌, ◌/◌, ◌%◌}
use Prim.Native.Char.{Char, code}
use Prim.Native.String.{String, char_at, ◌++◌ as str_append}
use mathlib.Core.Bool.{Bool, ◌&&◌, ◌||◌, not}
use mathlib.Core.List.{List, [], ◌∷◌}
use mathlib.Core.Option.{Option, none, some}
use mathlib.Core.Bool.{true}
use mathlib.Core.Path.{◌≡◌, refl}
use package.text.Mathlib.Text.{◌==◌}
use forgetbase.Prelude.Tests.{leb, ltb, nat_eq, if◌then◌else◌}
use forgetbase.Prelude.Lists.{length, all}

abbrev pub codes : String → List ℕ
codes String.[] = []
codes (String.◌∷◌ c s) = code c ∷ codes s

abbrev pub is_digit : ℕ → Bool
is_digit c = leb b'0' c && leb c b'9'

abbrev pub is_lower : ℕ → Bool
is_lower c = leb b'a' c && leb c b'z'

abbrev pub is_upper : ℕ → Bool
is_upper c = leb b'A' c && leb c b'Z'

abbrev pub is_alphanumeric : ℕ → Bool
is_alphanumeric c = is_digit c || (is_lower c || is_upper c)

-- `[a-f0-9]`
abbrev pub is_hex : ℕ → Bool
is_hex c = is_digit c || (leb b'a' c && leb c b'f')

-- `[A-Za-z0-9_-]`
abbrev pub is_base64url : ℕ → Bool
is_base64url c = is_alphanumeric c || (nat_eq c b'_' || nat_eq c b'-')

-- `z.string().min(1)`
abbrev pub is_filled : String → Bool
is_filled s = not (s == "")

abbrev pub opt_filled : Option String → Bool
opt_filled none = true
opt_filled (some s) = is_filled s

-- `/^[a-f0-9]{64}$/`
abbrev pub is_sha256 : String → Bool
is_sha256 s = nat_eq (length (codes s)) 64 && all is_hex (codes s)

-- `/^[A-Za-z0-9_-]+$/`
abbrev pub is_identifier : String → Bool
is_identifier s = is_filled s && all is_base64url (codes s)

-- `texts.includes(s)`
abbrev pub includes : String → List String → Bool
includes s [] = Bool.false
includes s (t ∷ ts) = t == s || includes s ts

-- `new Set(texts).size === texts.length`
abbrev pub is_distinct : List String → Bool
is_distinct [] = true
is_distinct (s ∷ ss) = not (includes s ss) && is_distinct ss

-- a template literal of three parts
abbrev pub text : String → String → String → String
text a b c = str_append a (str_append b c)

-- the character of a digit
abbrev digit : ℕ → Char
digit n = char_at "0123456789" n

-- `String(n)`; a number has fewer digits than its value plus one, so the fuel of `decimal` is enough.
decimal_from : ℕ → ℕ → String → String
decimal_from zero n rest = rest
decimal_from (suc fuel) n rest =
    let more = decimal_from fuel (n / 10) (String.◌∷◌ (digit (n % 10)) rest) in
    if ltb n 10 then String.◌∷◌ (digit n) rest else more

unfoldable pub decimal : ℕ → String
unfolding decimal_from
decimal n = decimal_from (n + 1) n String.[]

-- `list.join(", ")` and the like
unfoldable pub join : String → List String → String
join separator [] = ""
join separator (s ∷ []) = s
join separator (s ∷ t ∷ ss) = text s separator (join separator (t ∷ ss))

-- the UTF-16 code units of a text, and `text.length`
abbrev pub code_units : List ℕ → List ℕ
code_units [] = []
code_units (c ∷ cs) =
    if ltb c 65536
    then c ∷ code_units cs
    else (55296 + (c - 65536) / 1024) ∷ (56320 + (c - 65536) % 1024) ∷ code_units cs

abbrev pub text_length : String → ℕ
text_length s = length (code_units (codes s))

-- `left < right` on lists of numbers, and so on texts by their code units
unfoldable pub codes_below : List ℕ → List ℕ → Bool
codes_below [] [] = Bool.false
codes_below [] (d ∷ ds) = true
codes_below (c ∷ cs) [] = Bool.false
codes_below (c ∷ cs) (d ∷ ds) = if nat_eq c d then codes_below cs ds else ltb c d

abbrev pub text_below : String → String → Bool
text_below a b = codes_below (code_units (codes a)) (code_units (codes b))

decimal_example : decimal 1204 ≡ "1204"
unfolding decimal
decimal_example = refl
