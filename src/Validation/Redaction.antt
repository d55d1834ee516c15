-- ===== src/Validation/Redaction.antt =====
-- packages/validation/src/index.ts: `redactText` and its options. What the regular expressions match is
-- an argument: `count kind t` is the number of matches in `t`, `replace kind t` the text with the
-- placeholder of the rule in the place of each.
pub mod Findings
use forgetbase.Prelude.{
  ℕ, String, Bool, true, false, not, ◌&&◌, Option, none, some, List, [], ◌∷◌, ◌++◌, filter,
  if◌then◌else◌, nat_eq, ltb,
}

-- `piiRedactionRuleKindSchema`
pub data RuleKind : Type 0 where
  api_key bearer_token credit_card email government_id ip_address jwt phone url_secret : RuleKind

-- `DEFAULT_PII_REDACTION_RULE_KINDS`, in the order of the schema
abbrev pub default_rule_kinds : List RuleKind
default_rule_kinds =
    api_key ∷ bearer_token ∷ credit_card ∷ email ∷ government_id ∷ ip_address ∷ jwt ∷ phone
    ∷ url_secret ∷ []

-- the kinds of `redactionRules`, in its order
abbrev pub redaction_rules : List RuleKind
redaction_rules =
    jwt ∷ bearer_token ∷ api_key ∷ url_secret ∷ email ∷ credit_card ∷ government_id ∷ ip_address
    ∷ phone ∷ []

abbrev pub kind_number : RuleKind → ℕ
kind_number api_key = 0
kind_number bearer_token = 1
kind_number credit_card = 2
kind_number email = 3
kind_number government_id = 4
kind_number ip_address = 5
kind_number jwt = 6
kind_number phone = 7
kind_number url_secret = 8

-- `left === right` on kinds
abbrev pub rule_eq : RuleKind → RuleKind → Bool
rule_eq a b = nat_eq (kind_number a) (kind_number b)

-- `kinds.includes(kind)` and `new Set(kinds).has(kind)`
abbrev pub has_kind : RuleKind → List RuleKind → Bool
has_kind k [] = false
has_kind k (j ∷ js) = if rule_eq j k then true else has_kind k js

-- nothing, `RedactionOptions`, or a `PiiRedactionPolicy`
pub data Options : Type 0 where
  not_given : Options
  options : (enabled : Option Bool) (rule_kinds : Option (List RuleKind)) → Options
  policy : (redaction_enabled : Bool) (enabled_rule_kinds : List RuleKind) → Options

pub record Normalized : Type 0 where
  pub enabled : Bool
  pub rule_kinds : List RuleKind

-- `kinds.filter((kind, index) => kinds.indexOf(kind) === index)`, with what stands `before` the rest
unfoldable pub without_repeats : List RuleKind → List RuleKind → List RuleKind
without_repeats before [] = []
without_repeats before (k ∷ ks) =
    if has_kind k before
    then without_repeats (before ++ k ∷ []) ks
    else k ∷ without_repeats (before ++ k ∷ []) ks

unfoldable pub normalize_redaction_options : Options → Normalized
unfolding without_repeats
normalize_redaction_options not_given = record { enabled = true; rule_kinds = default_rule_kinds }
normalize_redaction_options (options enabled kinds) = record {
  enabled = elim enabled [ none ↦ true | some b ↦ b ];
  rule_kinds = without_repeats [] (elim kinds [ none ↦ default_rule_kinds | some ks ↦ ks ]);
}
normalize_redaction_options (policy enabled kinds) = record {
  enabled = enabled;
  rule_kinds = without_repeats [] kinds;
}

pub record Finding : Type 0 where
  pub kind : RuleKind
  pub matches : ℕ

pub record RedactedText : Type 0 where
  pub result : String
  pub redacted : Bool
  pub findings : List Finding

abbrev pub is_filled_list {ℓ} : {A : Type ℓ} → List A → Bool
is_filled_list [] = false
is_filled_list (_ ∷ _) = true

module _ (count : RuleKind → String → ℕ) (replace : RuleKind → String → String) where
  -- the loop over the rules
  unfoldable pub apply_rules :
      List RuleKind → List RuleKind → String → List Finding → String × List Finding
  apply_rules enabled [] t findings = (t, findings)
  apply_rules enabled (rule ∷ rules) t findings =
      let skipped = apply_rules enabled rules t findings in
      let replaced =
        apply_rules enabled rules (replace rule t)
          (findings ++ (record { kind = rule; matches = count rule t }) ∷ []) in
      if has_kind rule enabled && ltb 0 (count rule t) then replaced else skipped

  unfoldable pub redact_text : String → Options → RedactedText
  unfolding apply_rules normalize_redaction_options
  redact_text input given =
      let normalized = normalize_redaction_options given in
      let (t, findings) = apply_rules normalized.rule_kinds redaction_rules input [] in
      if normalized.enabled
      then record { result = t; redacted = is_filled_list findings; findings = findings }
      else record { result = input; redacted = false; findings = [] }
