-- ===== src/Updater/Semver/Upgrades.antt =====
-- `supportsUpgradeFrom` of packages/updater/src/manifest.ts: the rules of a release's `upgradeFrom`.
use forgetbase.Prelude.{
  ℕ, Bool, true, false, ◌&&◌, ◌||◌, Option, none, some, List, [], ◌∷◌, ◌≡◌, ◌≢◌, arith, span, leb,
  nat_eq, if◌then◌else◌, Bool-cases, Option-cases, inl, inr, ◌⊎◌, Result, ok, ◌>>=◌, >>=-eq-ok,
  codes,
}
use forgetbase.Updater.Semver.Order.{text_eq-eq}
use forgetbase.Updater.Semver.{
  Sign, below, text_eq, is_label, is_empty, match_semver, compare_semver,
}

-- `\s`
abbrev pub is_space : ℕ → Bool
is_space c =
    (leb 9 c && leb c 13)
    || nat_eq c 32
    || nat_eq c 0xa0
    || nat_eq c 0x1680
    || (leb 0x2000 c && leb c 0x200a)
    || nat_eq c 0x2028
    || nat_eq c 0x2029
    || nat_eq c 0x202f
    || nat_eq c 0x205f
    || nat_eq c 0x3000
    || nat_eq c 0xfeff

pub record Range : Type 0 where
  pub low : List ℕ
  pub high : List ℕ

-- the bound behind `<`, which the rule ends with
abbrev high_bound : List ℕ → List ℕ → Option Range
high_bound low [] = none
high_bound low (c ∷ cs) =
    if nat_eq c b'<'
    then elim (match_semver false cs) [
      | none ↦ none
      | some _ ↦ some (record { low = low; high = cs })
    ]
    else none

abbrev low_bound : List ℕ → Option Range
low_bound cs =
    let (low, rest) = span is_label cs in
    let (spaces, bound) = span is_space rest in
    elim (match_semver false low) [
      | none ↦ none
      | some _ ↦ if is_empty spaces then none else high_bound low bound
    ]

-- The match of `>=low <high`.
unfoldable pub match_range : List ℕ → Option Range
unfolding match_semver
match_range [] = none
match_range (c ∷ []) = none
match_range (c ∷ d ∷ cs) = if nat_eq c b'>' && nat_eq d b'=' then low_bound cs else none

abbrev is_below : Sign → Bool
is_below below = true
is_below _ = false

module _ (locale_gt : List ℕ → List ℕ → Bool) where
  abbrev pub in_range : List ℕ → Option Range → Result Bool
  in_range version none = ok false
  in_range version (some range) = do
    low ← compare_semver locale_gt version range.low
    if is_below low
        then ok false
        else do high ← compare_semver locale_gt version range.high; ok (is_below high)

  abbrev pub rule_allows : List ℕ → List ℕ → Result Bool
  rule_allows version rule =
      if text_eq rule (codes "*") || text_eq rule version
      then ok true
      else in_range version (match_range rule)

  -- `manifest.upgradeFrom.some(…)`
  unfoldable pub supports_upgrade_from : List (List ℕ) → List ℕ → Result Bool
  unfolding match_range compare_semver
  supports_upgrade_from [] version = ok false
  supports_upgrade_from (rule ∷ rules) version = do
    allowed ← rule_allows version rule
    let rest = supports_upgrade_from rules version
    if allowed then ok true else rest

  -- Why a rule allows an upgrade from a version: it is the wildcard, the version itself, or a range
  -- from a bound that the version is not below to a bound that it is below.
  pub data Allows (version rule : List ℕ) : Type 0 where
    anything : rule ≡ codes "*" → Allows version rule
    exactly : rule ≡ version → Allows version rule
    within :
        (range : Range) (s : Sign)
        → match_range rule ≡ some range
        → compare_semver locale_gt version range.low ≡ ok s
        → s ≢ below
        → compare_semver locale_gt version range.high ≡ ok below
        → Allows version rule

  in_range-Allows :
      (version rule : List ℕ) (range : Range)
      → match_range rule ≡ some range
      → in_range version (some range) ≡ ok true
      → Allows version rule
  in_range-Allows version rule range found e =
      let (s, low, e') = >>=-eq-ok (compare_semver locale_gt version range.low) _ e in
      lower s low (Bool-cases (is_below s)) e'
    where
      upper :
          (s : Sign)
          → compare_semver locale_gt version range.low ≡ ok s
          → is_below s ≡ false
          → (do high ← compare_semver locale_gt version range.high; ok (is_below high)) ≡ ok true
          → Allows version rule
      upper s low at_least e =
          let (t, high, e') = >>=-eq-ok (compare_semver locale_gt version range.high) _ e in
          let last : t ≡ below = ground arith in
          within range s found low (λ q. ground arith) (rw last at high)

      lower :
          (s : Sign)
          → compare_semver locale_gt version range.low ≡ ok s
          → (is_below s ≡ true) ⊎ (is_below s ≡ false)
          → (if is_below s
              then ok false
              else do high ← compare_semver locale_gt version range.high; ok (is_below high))
            ≡ ok true
          → Allows version rule
      lower s low (inl b) e = let clash : ok false ≡ ok true = rw b at e in ground arith
      lower s low (inr b) e = upper s low b (rw b at e)

  rule_allows-Allows :
      (version rule : List ℕ) → rule_allows version rule ≡ ok true → Allows version rule
  rule_allows-Allows version rule e = elim (Bool-cases (text_eq rule (codes "*"))) [
    | inl star ↦ anything (text_eq-eq rule (codes "*") star)
    | inr other ↦ elim (Bool-cases (text_eq rule version)) [
      | inl exact ↦ exactly (text_eq-eq rule version exact)
      | inr differ ↦ elim (Option-cases (match_range rule)) [
        | inl no_range ↦ ground arith
        | inr (range, found) ↦ in_range-Allows version rule range found (ground arith)
      ]
    ]
  ]

  pub data SomeAllows (version : List ℕ) : List (List ℕ) → Type 0 where
    here :
        {rule : List ℕ} {rules : List (List ℕ)}
        → Allows version rule
        → SomeAllows version (rule ∷ rules)
    there :
        {rule : List ℕ} {rules : List (List ℕ)}
        → SomeAllows version rules
        → SomeAllows version (rule ∷ rules)

  -- An upgrade is supported only if one of the release's rules allows it.
  pub supports_upgrade_from-SomeAllows :
      (rules : List (List ℕ)) (version : List ℕ)
      → supports_upgrade_from rules version ≡ ok true
      → SomeAllows version rules
  unfolding supports_upgrade_from
  supports_upgrade_from-SomeAllows [] version e = ground arith
  supports_upgrade_from-SomeAllows (rule ∷ rules) version e =
      let (allowed, first, e') = >>=-eq-ok (rule_allows version rule) _ e in
      choose allowed first e' (supports_upgrade_from-SomeAllows rules version)
    where
      choose :
          (allowed : Bool)
          → rule_allows version rule ≡ ok allowed
          → (if allowed then ok true else supports_upgrade_from rules version) ≡ ok true
          → (supports_upgrade_from rules version ≡ ok true → SomeAllows version rules)
          → SomeAllows version (rule ∷ rules)
      choose true first e later = here (rule_allows-Allows version rule first)
      choose false first e later = there (later e)
