-- ===== src/Validation/Redaction/Findings.antt =====
-- packages/validation/src/index.ts: what `redactText` reports.
use forgetbase.Prelude.{
  ap, ◌||◌, append-nil, append_assoc, some, none, All-map, ◌∙◌, ◌≡◌, refl, ◌⊎◌, inl, inr, ℕ, ◌<◌,
  ltb, String, Bool, true, false, not, List, [], ◌∷◌, ◌++◌, filter, if◌then◌else◌, All, Bool-cases,
  arith,
}
use forgetbase.Validation.Redaction.{
  RuleKind, Options, Finding, has_kind, without_repeats, normalize_redaction_options,
  redaction_rules, default_rule_kinds, apply_rules, redact_text, not_given, options, policy,
  rule_eq, is_filled_list,
}

-- The kinds that the options ask for, with repetitions.
abbrev pub asked : Options → List RuleKind
asked not_given = default_rule_kinds
asked (options enabled none) = default_rule_kinds
asked (options enabled (some ks)) = ks
asked (policy enabled ks) = ks

module _ (count : RuleKind → String → ℕ) (replace : RuleKind → String → String) where
  -- The text after the rules, one after the other, that are asked for and match.
  abbrev pub redacts : List RuleKind → String → String
  redacts [] t = t
  redacts (rule ∷ rules) t =
      if ltb 0 (count rule t) then redacts rules (replace rule t) else redacts rules t

  -- The matches of each of the rules in the text as the rules before it have left it.
  abbrev pub finds : List RuleKind → String → List Finding
  finds [] t = []
  finds (rule ∷ rules) t =
      if ltb 0 (count rule t)
      then record { kind = rule; matches = count rule t } ∷ finds rules (replace rule t)
      else finds rules t

  apply_rules-redacts :
      (enabled rules : List RuleKind) (t : String) (found : List Finding)
      → apply_rules count replace enabled rules t found ≡ (
        redacts (filter (λ k. has_kind k enabled) rules) t,
        found ++ finds (filter (λ k. has_kind k enabled) rules) t,
      )
  unfolding apply_rules
  apply_rules-redacts enabled [] t found = rw (append-nil found) refl
  apply_rules-redacts enabled (rule ∷ rules) t found = elim (Bool-cases (has_kind rule enabled)) [
    | inr off ↦ rw off (apply_rules-redacts enabled rules t found)
    | inl on ↦ elim (Bool-cases (ltb 0 (count rule t))) [
      | inl hit ↦
          rw (on, hit)
            (apply_rules-redacts enabled rules (replace rule t)
                (found ++ record { kind = rule; matches = count rule t } ∷ [])
              ∙ rw
                  (append_assoc found (record { kind = rule; matches = count rule t } ∷ [])
                    (finds (filter (λ k. has_kind k enabled) rules) (replace rule t)))
                  refl)
      | inr miss ↦ rw (on, miss) (apply_rules-redacts enabled rules t found)
    ]
  ]

  finds-positive :
      (rules : List RuleKind) (t : String)
      → All (λ f. (0 < f.matches) × (has_kind f.kind rules ≡ true)) (finds rules t)
  finds-positive [] t = tt
  finds-positive (rule ∷ rules) t = elim (Bool-cases (ltb 0 (count rule t))) [
    | inl hit ↦ rw hit (
      (ground arith, ground arith),
      All-map (λ f (p, q). (p, ground arith)) _ (finds-positive rules (replace rule t)),
    )
    | inr miss ↦ rw miss (All-map (λ f (p, q). (p, ground arith)) _ (finds-positive rules t))
  ]

  finds-none :
      (rules : List RuleKind) (t : String)
      → is_filled_list (finds rules t) ≡ false
      → redacts rules t ≡ t
  finds-none [] t h = refl
  finds-none (rule ∷ rules) t h = elim (Bool-cases (ltb 0 (count rule t))) [
    | inl hit ↦ absurd (ground (arith, hit, h))
    | inr miss ↦ rw miss (finds-none rules t (rw miss at h))
  ]

has_kind-append :
    (k : RuleKind) (xs ys : List RuleKind) → has_kind k (xs ++ ys) ≡ has_kind k xs || has_kind k ys
has_kind-append k [] ys = refl
has_kind-append k (x ∷ xs) ys = ground (arith, has_kind-append k xs ys)

has_kind-same :
    (j k : RuleKind) (xs : List RuleKind) → rule_eq j k ≡ true → has_kind j xs ≡ has_kind k xs
has_kind-same j k [] h = refl
has_kind-same j k (x ∷ xs) h = ground (arith, has_kind-same j k xs h)

without_repeats-has :
    (k : RuleKind) (before ks : List RuleKind)
    → has_kind k before ≡ false
    → has_kind k (without_repeats before ks) ≡ has_kind k ks
unfolding without_repeats
without_repeats-has k before [] h = refl
without_repeats-has k before (j ∷ ks) h = elim (Bool-cases (rule_eq j k)) [
  | inl same_kind ↦
      let new : has_kind j before ≡ false = has_kind-same j k before same_kind ∙ h in
      rw (new, same_kind) refl
  | inr different ↦
      let rest =
        without_repeats-has k (before ++ j ∷ []) ks
          (ground (arith, has_kind-append k before (j ∷ []))) in
      elim (Bool-cases (has_kind j before)) [
        | inl old ↦ rw (old, different) rest
        | inr new ↦ rw (new, different) rest
      ]
]

normalize-has :
    (given : Options) (k : RuleKind)
    → has_kind k (normalize_redaction_options given).rule_kinds ≡ has_kind k (asked given)
unfolding normalize_redaction_options
normalize-has not_given k = refl
normalize-has (options enabled none) k = without_repeats-has k [] default_rule_kinds refl
normalize-has (options enabled (some ks)) k = without_repeats-has k [] ks refl
normalize-has (policy enabled ks) k = without_repeats-has k [] ks refl

filter-same :
    (p q : RuleKind → Bool)
    → ((k : RuleKind) → p k ≡ q k)
    → (l : List RuleKind) → filter p l ≡ filter q l
filter-same p q h [] = refl
filter-same p q h (k ∷ ks) = rw (h k, filter-same p q h ks) refl

-- The options switch the redaction off.
abbrev pub is_off : Options → Bool
is_off not_given = false
is_off (options none kinds) = false
is_off (options (some b) kinds) = not b
is_off (policy b kinds) = not b

-- The rules that are asked for, in the order of the rules.
abbrev pub active_rules : Options → List RuleKind
active_rules given = filter (λ k. has_kind k (asked given)) redaction_rules

normalize-enabled :
    (given : Options) → (normalize_redaction_options given).enabled ≡ not (is_off given)
unfolding normalize_redaction_options
normalize-enabled not_given = refl
normalize-enabled (options none kinds) = refl
normalize-enabled (options (some true) kinds) = refl
normalize-enabled (options (some false) kinds) = refl
normalize-enabled (policy true kinds) = refl
normalize-enabled (policy false kinds) = refl

module _ (count : RuleKind → String → ℕ) (replace : RuleKind → String → String) where
  -- Redaction that is on applies the rules that the options ask for, each to what the rules before it
  -- have left, and reports for each that matches how often it did; the report names only such rules,
  -- with a positive count, and a text that is not reported as redacted is the input. Redaction that is
  -- off returns the input and no findings.
  pub redact_text-rules :
      (input : String) (given : Options)
      → ((redact_text count replace input given).result
          ≡ (if is_off given then input else redacts count replace (active_rules given) input))
        × ((redact_text count replace input given).findings
            ≡ (if is_off given then [] else finds count replace (active_rules given) input))
        × All
            (λ f. (0 < f.matches) × (has_kind f.kind (active_rules given) ≡ true))
            (redact_text count replace input given).findings
        × (((redact_text count replace input given).redacted ≡ true)
            ⊎ ((redact_text count replace input given).result ≡ input))
  unfolding redact_text
  redact_text-rules input given =
      let normalized = normalize_redaction_options given in
      let r = apply_rules-redacts count replace normalized.rule_kinds redaction_rules input [] in
      let f = filter-same _ _ (normalize-has given) redaction_rules in
      let found = finds count replace (active_rules given) input in
      elim (Bool-cases (is_off given)) [
        | inl off ↦
            let e : normalized.enabled ≡ false = normalize-enabled given ∙ ap not off in
            rw (e, off) (refl, refl, tt, inr refl)
        | inr on ↦
            let e : normalized.enabled ≡ true = normalize-enabled given ∙ ap not on in
            rw (e, on, r, f)
              (
                refl,
                refl,
                finds-positive count replace (active_rules given) input,
                elim (Bool-cases (is_filled_list found)) [
                  | inl filled ↦ inl filled
                  | inr bare ↦ inr (finds-none count replace (active_rules given) input bare)
                ],
              )
      ]
