-- ===== src/LocalSync/Tokens/Signatures.antt =====
-- packages/local-sync/src/index.ts: a token that is signed and then verified.
use Prim.Native.Char.{Char, code}
use Prim.Native.String.{◌++◌ as str_append}
use package.text.Mathlib.TextLemmas.{nil-append, cons-append}
use forgetbase.Prelude.{
  ap, sym, ◌∙◌, ◌≡◌, refl, ℕ, ◌≤◌, String, Bool, true, false, not, ◌&&◌, some, List, [], ◌∷◌, all,
  if◌then◌else◌, nat_eq, ltb, text, codes, is_filled, is_base64url, is_identifier, text_length, ok,
  throw_first-then, ok_equal, arith,
}
use forgetbase.LocalSync.Canonical.{Json}
use forgetbase.LocalSync.Tokens.{
  TokenHost, split_token, two_parts, bytes_eq, encoded, mac, read_payload, sign_bound_token,
  verify_bound_token, secret_guard,
}

no_dot : (c : ℕ) → is_base64url c ≡ true → nat_eq c b'.' ≡ false
no_dot c h = ground arith

abbrev dot : Char
dot = "."

first_of : (a b : Bool) → (a && b) ≡ true → a ≡ true
first_of a b h = ground arith

rest_of : (a b : Bool) → (a && b) ≡ true → b ≡ true
rest_of a b h = ground arith

-- a part without a dot, and what follows it
split_token-part : (a : String) → all is_base64url (codes a) ≡ true → split_token a ≡ a ∷ []
unfolding split_token
split_token-part String.[] h = refl
split_token-part (String.◌∷◌ c s) h =
    let own : nat_eq (code c) b'.' ≡ false =
      no_dot (code c) (first_of (is_base64url (code c)) (all is_base64url (codes s)) h) in
    rw (split_token-part s (rest_of (is_base64url (code c)) (all is_base64url (codes s)) h), own)
      refl

split_token-dot :
    (a b : String)
    → all is_base64url (codes a) ≡ true
    → all is_base64url (codes b) ≡ true
    → split_token (text a "." b) ≡ a ∷ b ∷ []
unfolding split_token
split_token-dot String.[] b h k =
    ap split_token (
      nil-append (str_append "." b)
      ∙ cons-append dot "" b
      ∙ ap (λ s. String.◌∷◌ dot s) (nil-append b))
    ∙ ap (λ l. elim l [ [] ↦ [] | part ∷ parts ↦ "" ∷ part ∷ parts ]) (split_token-part b k)
split_token-dot (String.◌∷◌ c s) b h k =
    let own : nat_eq (code c) b'.' ≡ false =
      no_dot (code c) (first_of (is_base64url (code c)) (all is_base64url (codes s)) h) in
    ap split_token (cons-append c s (str_append "." b))
    ∙ ap
        (λ l. elim l [
          | [] ↦ []
          | part ∷ parts ↦
              if nat_eq (code c) b'.' then "" ∷ part ∷ parts else String.◌∷◌ c part ∷ parts
        ])
        (split_token-dot s b (rest_of (is_base64url (code c)) (all is_base64url (codes s)) h) k)
    ∙ rw own refl

two_parts_lem :
    (a b : String)
    → is_identifier a ≡ true
    → is_identifier b ≡ true
    → two_parts (a ∷ b ∷ []) ≡ some (a, b)
two_parts_lem a b h k = rw (h, k) refl

bytes_eq_refl : (bs : List ℕ) → bytes_eq bs bs ≡ true
bytes_eq_refl [] = refl
bytes_eq_refl (b ∷ bs) = ground (arith, bytes_eq_refl bs)

-- The host encodes a value and its authentication code in base64url, decodes them again, and the token
-- is not too large.
pub record IsEncoded (host : TokenHost) (v : Json) (secret domain : String) : Type 0 where
  pub value_decodes : host.parse_json (host.of_utf8 (host.of_base64url (encoded host v))) ≡ some v
  pub value_part : is_identifier (encoded host v) ≡ true
  pub mac_decodes :
      host.of_base64url (host.to_base64url (mac host secret domain (encoded host v)))
      ≡ mac host secret domain (encoded host v)
  pub mac_part : is_identifier (host.to_base64url (mac host secret domain (encoded host v))) ≡ true
  pub small : text_length (sign_bound_token host v secret domain) ≤ 8192

-- the parts of a signed token
signed_parts :
    (host : TokenHost) (v : Json) (secret domain : String)
    → IsEncoded host v secret domain
    → two_parts (split_token (sign_bound_token host v secret domain))
      ≡ some (encoded host v, host.to_base64url (mac host secret domain (encoded host v)))
unfolding sign_bound_token
signed_parts host v secret domain e =
    let signature = host.to_base64url (mac host secret domain (encoded host v)) in
    ap two_parts (
      split_token-dot (encoded host v) signature
        (rest_of (is_filled (encoded host v)) _ e.value_part)
        (rest_of (is_filled signature) _ e.mac_part))
    ∙ two_parts_lem (encoded host v) signature e.value_part e.mac_part

-- Whatever the secret and the purpose, a signed token gives no other value.
pub verify-value :
    (host : TokenHost) (v w : Json) (secret domain secret' domain' : String)
    → IsEncoded host v secret domain
    → verify_bound_token host (sign_bound_token host v secret domain) secret' domain' ≡ ok w
    → w ≡ v
unfolding verify_bound_token
verify-value host v w secret domain secret' domain' e h =
    let token = sign_bound_token host v secret domain in
    let (_, h1) =
      throw_first-then
        (secret_guard host secret'
          ∷ (ltb 8192 (text_length token), "Local device authorization token is too large")
          ∷ [])
        _ h in
    let (_, h2) =
      throw_first-then
        ((
          not (
              bytes_eq
                (host.of_base64url (host.to_base64url (mac host secret domain (encoded host v))))
                (mac host secret' domain' (encoded host v))),
          "Local device authorization token signature is invalid",
        )
          ∷ [])
        (read_payload host (encoded host v)) (rw (signed_parts host v secret domain e) at h1) in
    sym (ok_equal (rw (read_payload, e.value_decodes) at h2))

-- A token that is signed is verified, and gives the signed value.
pub verify-sign :
    (host : TokenHost) (v : Json) (secret domain : String)
    → IsEncoded host v secret domain
    → ltb (host.byte_length secret) 32 ≡ false
    → verify_bound_token host (sign_bound_token host v secret domain) secret domain ≡ ok v
unfolding verify_bound_token
verify-sign host v secret domain e long =
    let size : ltb 8192 (text_length (sign_bound_token host v secret domain)) ≡ false =
      ground (arith, e.small) in
    rw
      (
        long,
        size,
        signed_parts host v secret domain e,
        e.mac_decodes,
        bytes_eq_refl (mac host secret domain (encoded host v)),
        read_payload,
        e.value_decodes,
      )
      refl
