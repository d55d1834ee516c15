-- ===== src/QueryCache/Keys.antt =====
-- packages/db/src/managed-query-cache.ts: what `buildMemoryKey` tells apart.
use Prim.Native.Char.{Char, code}
use Prim.Native.String.{◌++◌ as str_append}
use package.text.Mathlib.TextLemmas.{nil-append, cons-append}
use forgetbase.Prelude.{
  ap, sym, ◌∙◌, ◌≡◌, refl, inl, inr, String, true, false, not, ◌&&◌, Option, none, some, all, codes,
  text, if◌then◌else◌, nat_eq, ◌==◌, eq_iff, eq_refl, some_equal, Bool-cases, arith,
}
use forgetbase.QueryCache.{memory_key}

-- A key without a colon, such as a digest in hexadecimal digits.
abbrev pub IsPlain : String → Type 0
IsPlain key = all (λ c. not (nat_eq c b':')) (codes key) ≡ true

-- what stands before and after the last colon
abbrev last_split : String → Option (String × String)
last_split String.[] = none
last_split (String.◌∷◌ c s) = elim (last_split s) [
  | some (before, after) ↦ some (String.◌∷◌ c before, after)
  | none ↦ if nat_eq (code c) b':' then some ("", s) else none
]

abbrev colon : Char
colon = ":"

last_split-IsPlain : (key : String) → IsPlain key → last_split key ≡ none
last_split-IsPlain String.[] h = refl
last_split-IsPlain (String.◌∷◌ c s) h =
    let own : nat_eq (code c) b':' ≡ false = ground (arith, h) in
    rw (last_split-IsPlain s (ground (arith, h)), own) refl

last_split-text :
    (tenant key : String) → IsPlain key → last_split (text tenant ":" key) ≡ some (tenant, key)
last_split-text String.[] key h =
    ap last_split (
      nil-append (str_append ":" key)
      ∙ cons-append colon "" key
      ∙ ap (λ s. String.◌∷◌ colon s) (nil-append key))
    ∙ rw (last_split-IsPlain key h) refl
last_split-text (String.◌∷◌ c s) key h =
    ap last_split (cons-append c s (str_append ":" key))
    ∙ rw (last_split, last_split-text s key h) refl

-- Keys in memory are equal only where the tenants and the keys are.
pub memory_key_eq :
    (t u j k : String)
    → IsPlain j
    → IsPlain k
    → (memory_key (some t) j == memory_key (some u) k) ≡ ((t == u) && (j == k))
unfolding memory_key
memory_key_eq t u j k x y = elim (Bool-cases (text t ":" j == text u ":" k)) [
  | inl same_key ↦
      let parts : some (t, j) ≡ some (u, k) =
        sym (last_split-text t j x)
        ∙ ap last_split ((eq_iff (text t ":" j) (text u ":" k)).0 same_key)
        ∙ last_split-text u k y in
      let equal = some_equal parts in
      let tenants : (t == u) ≡ true = (eq_iff t u).1 (ap (λ q. q.0) equal) in
      let keys_equal : (j == k) ≡ true = (eq_iff j k).1 (ap (λ q. q.1) equal) in
      rw (same_key, tenants, keys_equal) refl
  | inr differs ↦ elim (Bool-cases ((t == u) && (j == k))) [
    | inr spare ↦ rw (differs, spare) refl
    | inl both ↦
        let tenants : t ≡ u = (eq_iff t u).0 (ground (arith, both)) in
        let keys_equal : j ≡ k = (eq_iff j k).0 (ground (arith, both)) in
        let clash : (text u ":" k == text u ":" k) ≡ false = rw (tenants, keys_equal) at differs in
        absurd (ground (arith, clash, eq_refl (text u ":" k)))
  ]
]
