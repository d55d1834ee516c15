-- ===== src/Updater/Semver.antt =====
-- packages/updater/src/manifest.ts: semantic versions and the rules for upgrades. A text is the list
-- of its code points. The source keeps the three numbers and numeric identifiers as doubles: a number
-- stands for the double nearest to it, and 2 ^ 1024 for Infinity.
pub mod Order
pub mod Upgrades
pub mod Labels
use forgetbase.Prelude.{
  ◌≡◌, refl, ◌<◌, lt→ltb, ℕ, zero, suc, ◌+◌, ◌-◌, ◌*◌, ◌/◌, ◌%◌, ◌^◌, Bool, true, false, not, ◌&&◌,
  ◌||◌, Option, none, some, List, [], ◌∷◌, String, all, any, span, ltb, nat_eq, if◌then◌else◌,
  Result, ok, err, ◌>>=◌, codes, is_digit, is_alphanumeric, ◌==◌,
}

-- `===` on texts
abbrev pub text_eq : List ℕ → List ℕ → Bool
text_eq [] [] = true
text_eq (a ∷ as') (b ∷ bs) = nat_eq a b && text_eq as' bs
text_eq _ _ = false

-- The results of `compareSemver`: -1, 0 and 1.
pub data Sign : Type 0 where
  below same above : Sign

-- `ParsedSemver`
pub record Semver : Type 0 where
  pub major : ℕ
  pub minor : ℕ
  pub patch : ℕ
  pub prerelease : List (List ℕ)

-- `[0-9A-Za-z.-]`
abbrev pub is_label : ℕ → Bool
is_label c = is_alphanumeric c || (nat_eq c b'.' || nat_eq c b'-')

abbrev pub is_empty : List ℕ → Bool
is_empty [] = true
is_empty (_ ∷ _) = false

-- `n` to a multiple of 2 ^ e, a half to an even multiple
abbrev pub round_at : ℕ → ℕ → ℕ
round_at e n =
    let q = n / 2 ^ e in
    let rest = 2 * (n % 2 ^ e) in
    if ltb (2 ^ e) rest || (nat_eq rest (2 ^ e) && nat_eq (q % 2) 1)
    then (q + 1) * 2 ^ e
    else q * 2 ^ e

-- the least exponent, from `e` on, with which 53 bits are enough; a number below 2 ^ 1024 needs at most 971
unfoldable pub exponent_from : ℕ → ℕ → ℕ → ℕ
exponent_from zero e n = e
exponent_from (suc fuel) e n = elim (ltb (n / 2 ^ e) (2 ^ 53)) [
  | true ↦ e
  | false ↦ exponent_from fuel (suc e) n
]

-- the double nearest to a number
unfoldable pub to_double : ℕ → ℕ
unfolding exponent_from
to_double n = elim (ltb n (2 ^ 53)) [
  | true ↦ n
  | false ↦ elim (ltb n (2 ^ 1024)) [ true ↦ round_at (exponent_from 971 1 n) n | false ↦ 2 ^ 1024 ]
]

-- `Number.parseInt(digits, 10)`
unfoldable pub parse_int_from : ℕ → List ℕ → ℕ
parse_int_from n [] = n
parse_int_from n (c ∷ cs) = parse_int_from (n * 10 + (c - b'0')) cs

unfoldable pub parse_int : List ℕ → ℕ
unfolding parse_int_from to_double
parse_int cs = to_double (parse_int_from 0 cs)

pub to_double_exact : (n : ℕ) → n < 2 ^ 53 → to_double n ≡ n
unfolding to_double
to_double_exact n h = rw (to_double, lt→ltb n (2 ^ 53) h) refl

-- `text.split(".")`
unfoldable pub split_dot : List ℕ → List (List ℕ)
split_dot [] = [] ∷ []
split_dot (c ∷ cs) = elim (split_dot cs) [
  | [] ↦ (c ∷ []) ∷ []
  | part ∷ parts ↦ if nat_eq c b'.' then [] ∷ part ∷ parts else (c ∷ part) ∷ parts
]

-- the digits of a number at the head of a text, and what follows them; `none` without a digit
abbrev pub number_at : List ℕ → Option (ℕ × List ℕ)
number_at cs =
    let (digits, rest) = span is_digit cs in
    if is_empty digits then none else some (parse_int digits, rest)

abbrev pub expect : ℕ → List ℕ → Option (List ℕ)
expect c [] = none
expect c (d ∷ ds) = if nat_eq c d then some ds else none

-- the optional build part and the end: `(?:\+[0-9A-Za-z.-]+)?$`
abbrev pub build_ok : Bool → List ℕ → Bool
build_ok allowed [] = true
build_ok allowed (c ∷ cs) = allowed && nat_eq c b'+' && not (is_empty cs) && all is_label cs

abbrev pub finish : Bool → ℕ → ℕ → ℕ → List (List ℕ) → List ℕ → Option Semver
finish allowed x y z labels rest =
    if build_ok allowed rest
    then some (record { major = x; minor = y; patch = z; prerelease = labels })
    else none

-- what follows the three numbers
abbrev pub suffix : Bool → ℕ → ℕ → ℕ → List ℕ → Option Semver
suffix allowed x y z [] = finish allowed x y z [] []
suffix allowed x y z (c ∷ cs) =
    if nat_eq c b'-'
    then (let (labels, rest) = span is_label cs in
        if is_empty labels then none else finish allowed x y z (split_dot labels) rest)
    else finish allowed x y z [] (c ∷ cs)

abbrev and_then {ℓ κ} : {A : Type ℓ} {B : Type κ} → Option A → (A → Option B) → Option B
and_then none k = none
and_then (some a) k = k a

-- The match of the regular expression, with (`parseSemver`) or without (the bounds of an upgrade
-- range) a build part.
unfoldable pub match_semver : Bool → List ℕ → Option Semver
unfolding split_dot parse_int
match_semver allowed cs = and_then (number_at cs) λ (x, r). and_then (expect b'.' r) λ s.
    and_then (number_at s) λ (y, t).
      and_then (expect b'.' t) λ u. and_then (number_at u) λ (z, v). suffix allowed x y z v

unfoldable pub parse_semver : List ℕ → Result Semver
unfolding match_semver
parse_semver cs = elim (match_semver true cs) [
  | none ↦ err "Invalid semantic version"
  | some v ↦ ok v
]

unfoldable pub is_numeric : List ℕ → Bool
is_numeric cs = not (is_empty cs) && all is_digit cs

abbrev pub number_sign : ℕ → ℕ → Sign → Sign
number_sign a b rest = if nat_eq a b then rest else if ltb b a then above else below

module _ (locale_gt : List ℕ → List ℕ → Bool) where
  -- one round of the loop over the identifiers, where they differ
  unfoldable pub label_sign : List ℕ → List ℕ → Sign
  label_sign l r =
      if is_numeric l && is_numeric r
      then if ltb (parse_int r) (parse_int l) then above else below
      else if is_numeric l
      then below
      else if is_numeric r
      then above
      else if locale_gt l r
      then above
      else below

  unfoldable pub labels_sign : List (List ℕ) → List (List ℕ) → Sign
  labels_sign [] [] = same
  labels_sign [] (r ∷ rs) = below
  labels_sign (l ∷ ls) [] = above
  labels_sign (l ∷ ls) (r ∷ rs) = if text_eq l r then labels_sign ls rs else label_sign l r

  -- a release comes after its pre-releases
  unfoldable pub prerelease_sign : List (List ℕ) → List (List ℕ) → Sign
  prerelease_sign [] [] = same
  prerelease_sign [] (r ∷ rs) = above
  prerelease_sign (l ∷ ls) [] = below
  prerelease_sign (l ∷ ls) (r ∷ rs) = labels_sign (l ∷ ls) (r ∷ rs)

  unfoldable pub semver_sign : Semver → Semver → Sign
  semver_sign a b = number_sign a.major b.major (
      number_sign a.minor b.minor
        (number_sign a.patch b.patch (prerelease_sign a.prerelease b.prerelease)))

  unfoldable pub compare_semver : List ℕ → List ℕ → Result Sign
  unfolding parse_semver semver_sign prerelease_sign labels_sign label_sign is_numeric
  compare_semver left right = do a ← parse_semver left; b ← parse_semver right; ok (semver_sign a b)
