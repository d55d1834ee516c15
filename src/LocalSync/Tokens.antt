-- ===== src/LocalSync/Tokens.antt =====
-- packages/local-sync/src/index.ts: the tokens that authorize a local device, a request and the code that
-- answers it. Node's HMAC, encodings, JSON and dates are arguments.
pub mod Signatures
pub mod RoundTrip
mod Tests
use Prim.Native.Char.{code}
use forgetbase.Prelude.{
  ℕ, ◌+◌, ◌-◌, min, String, Bool, true, false, not, ◌&&◌, ◌||◌, Option, none, some, List, [], ◌∷◌,
  ◌++◌, all, any, length, if◌then◌else◌, nat_eq, ltb, leb, text, codes, text_length, is_identifier,
  ◌==◌, Result, ok, err, throw_first, ◌>>◌, ◌>>=◌,
}
use forgetbase.LocalSync.{has_control}
use forgetbase.LocalSync.Canonical.{Json, undefined, quoted, object, Fields, entry, no_fields}

-- `byte_length` and `utf8` are of UTF-8, `to_base64url` and `of_base64url` of bytes, `json` is
-- `canonicalJson`, `parse_json` gives nothing where `JSON.parse` throws, and `parse_date` nothing where
-- `Date.parse` gives `NaN`.
pub record TokenHost : Type 0 where
  pub byte_length : String → ℕ
  pub utf8 : String → List ℕ
  pub of_utf8 : List ℕ → String
  pub to_base64url : List ℕ → String
  pub of_base64url : String → List ℕ
  pub hmac : String → String → List ℕ
  pub json : Json → String
  pub parse_json : String → Option Json
  pub parse_date : String → Option ℕ
  pub iso : ℕ → String

-- what a request and a code have in common
pub record Binding : Type 0 where
  pub enrollment_id : String
  pub server_id : String
  pub server_origin : String
  pub signing_key_id : String
  pub device_name : String
  pub redirect_uri : String
  pub state : String
  pub code_challenge : String
  pub issued_at : String
  pub expires_at : String

-- `LocalDeviceAuthorizationCodePayload`
pub record CodePayload : Type 0 where
  pub binding : Binding
  pub tenant_id : String
  pub user_id : String

abbrev pub request_domain : String
request_domain = "forgetbase.local-device.authorization-request.v1"

abbrev pub code_domain : String
code_domain = "forgetbase.local-device.authorization-code.v1"

abbrev pub max_token_ttl_ms : ℕ
max_token_ttl_ms = 600000

-- the entries of a code after the common ones
abbrev pub code_entries : CodePayload → Fields
code_entries c = entry "tenantId" (quoted c.tenant_id) (entry "userId" (quoted c.user_id) no_fields)

-- The object of a payload, with its keys in the order of `canonicalJson`.
abbrev pub payload_fields : String → Binding → Fields → Fields
payload_fields kind b rest = entry "codeChallenge" (quoted b.code_challenge) (
    entry "codeChallengeMethod" (quoted "S256") (
      entry "deviceName" (quoted b.device_name) (
        entry "enrollmentId" (quoted b.enrollment_id) (
          entry "expiresAt" (quoted b.expires_at) (
            entry "issuedAt" (quoted b.issued_at) (
              entry "kind" (quoted kind) (
                entry "redirectUri" (quoted b.redirect_uri) (
                  entry "serverId" (quoted b.server_id) (
                    entry "serverOrigin" (quoted b.server_origin) (
                      entry "signingKeyId" (quoted b.signing_key_id)
                        (entry "state" (quoted b.state) rest)))))))))))

abbrev pub request_value : Binding → Json
request_value b = object (payload_fields "request" b no_fields)

abbrev pub code_value : CodePayload → Json
code_value c = object (payload_fields "code" c.binding (code_entries c))

-- `source[key]`
abbrev pub field_of : String → Fields → Json
field_of key no_fields = undefined
field_of key (entry k v rest) = if k == key then v else field_of key rest

-- the code points that `trim` takes off
abbrev pub is_blank_code : ℕ → Bool
is_blank_code c =
    (leb 9 c && leb c 13)
    || nat_eq c 32
    || nat_eq c 160
    || nat_eq c 5760
    || (leb 8192 c && leb c 8202)
    || nat_eq c 8232
    || nat_eq c 8233
    || nat_eq c 8239
    || nat_eq c 8287
    || nat_eq c 12288
    || nat_eq c 65279

abbrev pub is_bound_string : String → ℕ → Bool
is_bound_string s maximum =
    not (all is_blank_code (codes s)) && leb (text_length s) maximum && not (has_control (codes s))

abbrev pub invalid : String → String
invalid label = text "Local device authorization " label " is invalid"

abbrev pub required_bound_string : Json → String → ℕ → Result String
required_bound_string (quoted s) label maximum =
    if is_bound_string s maximum then ok s else err (invalid label)
required_bound_string _ label maximum = err (invalid label)

abbrev pub is_bound_base64url : String → ℕ → ℕ → Bool
is_bound_base64url s minimum maximum =
    leb minimum (text_length s) && leb (text_length s) maximum && is_identifier s

abbrev pub required_bound_base64url : Json → String → ℕ → ℕ → Result String
required_bound_base64url (quoted s) label minimum maximum =
    if is_bound_base64url s minimum maximum then ok s else err (invalid label)
required_bound_base64url _ label minimum maximum = err (invalid label)

-- `token.split(".")`
unfoldable pub split_token : String → List String
split_token String.[] = "" ∷ []
split_token (String.◌∷◌ c s) = elim (split_token s) [
  | [] ↦ []
  | part ∷ parts ↦ if nat_eq (code c) b'.' then "" ∷ part ∷ parts else String.◌∷◌ c part ∷ parts
]

-- the two parts of a token in the right form
abbrev pub two_parts : List String → Option (String × String)
two_parts (payload ∷ signature ∷ []) =
    if is_identifier payload && is_identifier signature then some (payload, signature) else none
two_parts _ = none

abbrev pub bytes_eq : List ℕ → List ℕ → Bool
bytes_eq [] [] = true
bytes_eq (a ∷ as') (b ∷ bs) = nat_eq a b && bytes_eq as' bs
bytes_eq _ _ = false

-- what a request asks for; the defaults are filled in
pub record RequestOptions : Type 0 where
  pub secret : String
  pub enrollment_id : String
  pub server_id : String
  pub server_origin : String
  pub signing_key_id : String
  pub device_name : String
  pub redirect_uri : String
  pub state : String
  pub code_challenge : String
  pub issued_at : ℕ
  pub ttl_ms : ℕ

pub record CodeOptions : Type 0 where
  pub request : Binding
  pub tenant_id : String
  pub user_id : String
  pub secret : String
  pub issued_at : ℕ
  pub ttl_ms : ℕ

module _ (host : TokenHost) where
  -- `assertEnrollmentSecret`
  abbrev pub secret_guard : String → Bool × String
  secret_guard secret = (
    ltb (host.byte_length secret) 32,
    "Local device enrollment secret must contain at least 32 bytes",
  )

  -- `assertLocalDeviceTokenTtl`
  abbrev pub ttl_guard : ℕ → Bool × String
  ttl_guard ttl_ms = (
    ltb ttl_ms 1000 || ltb max_token_ttl_ms ttl_ms,
    "Local device authorization TTL must be between 1 second and 10 minutes",
  )

  abbrev pub encoded : Json → String
  encoded payload = host.to_base64url (host.utf8 (host.json payload))

  abbrev pub mac : String → String → String → List ℕ
  mac secret domain encoded_payload = host.hmac secret (text domain "." encoded_payload)

  unfoldable pub sign_bound_token : Json → String → String → String
  sign_bound_token payload secret domain =
      text (encoded payload) "." (host.to_base64url (mac secret domain (encoded payload)))

  -- what follows the guards on the form of the token
  abbrev pub read_payload : String → Result Json
  read_payload part = elim (host.parse_json (host.of_utf8 (host.of_base64url part))) [
    | none ↦ err "Local device authorization token payload is invalid"
    | some v ↦ ok v
  ]

  unfoldable pub verify_bound_token : String → String → String → Result Json
  unfolding split_token
  verify_bound_token token secret domain =
      throw_first (
        secret_guard secret
        ∷ (ltb 8192 (text_length token), "Local device authorization token is too large")
        ∷ [])
      >> elim (two_parts (split_token token)) [
        | none ↦ err "Local device authorization token is malformed"
        | some (payload, signature) ↦
            throw_first (
              (
                not (bytes_eq (host.of_base64url signature) (mac secret domain payload)),
                "Local device authorization token signature is invalid",
              )
              ∷ [])
            >> read_payload payload
      ]

  abbrev pub required_bound_date_time : Json → String → Result (String × ℕ)
  required_bound_date_time v label = required_bound_string v label 64 >>= λ s.
      elim (host.parse_date s) [ none ↦ err (invalid label) | some t ↦ ok (s, t) ]

  abbrev pub is_text : Json → String → Bool
  is_text (quoted s) expected = s == expected
  is_text _ expected = false

  abbrev pub timing_guards : ℕ → ℕ → ℕ → List (Bool × String)
  timing_guards now issued expires =
      (
        ltb (now + 300000) issued || leb expires now || ltb max_token_ttl_ms (expires - issued),
        "Local device authorization request has expired or invalid timing",
      )
      ∷ []

  abbrev pub purpose_guards : Json → Json → List (Bool × String)
  purpose_guards kind method =
      (
        not (is_text kind "request") || not (is_text method "S256"),
        "Local device authorization request has the wrong purpose",
      )
      ∷ []

  -- `validateAuthorizationRequestPayload` of an object whose `kind` is given
  unfoldable pub validate_fields : Json → Fields → ℕ → Result Binding
  validate_fields kind source now =
      throw_first (purpose_guards kind (field_of "codeChallengeMethod" source))
      >> (required_bound_date_time (field_of "issuedAt" source) "issuedAt"
          >>= λ (issued_at, issued).
              required_bound_date_time (field_of "expiresAt" source) "expiresAt"
              >>= λ (expires_at, expires).
                  throw_first (timing_guards now issued expires)
                  >> (required_bound_string (field_of "enrollmentId" source) "enrollmentId" 250
                      >>= λ enrollment_id.
                          required_bound_string (field_of "serverId" source) "serverId" 250
                          >>= λ server_id.
                              required_bound_string (field_of "serverOrigin" source) "serverOrigin"
                                2048
                              >>= λ server_origin.
                                  required_bound_string (field_of "signingKeyId" source)
                                    "signingKeyId" 250
                                  >>= λ signing_key_id.
                                      required_bound_string (field_of "deviceName" source)
                                        "deviceName" 120
                                      >>= λ device_name.
                                          required_bound_string (field_of "redirectUri" source)
                                            "redirectUri" 2048
                                          >>= λ redirect_uri.
                                              required_bound_base64url (field_of "state" source)
                                                "state" 32 128
                                              >>= λ state.
                                                  required_bound_base64url
                                                    (field_of "codeChallenge" source)
                                                    "codeChallenge" 43 128
                                                  >>= λ code_challenge. ok (record {
                                                    enrollment_id = enrollment_id;
                                                    server_id = server_id;
                                                    server_origin = server_origin;
                                                    signing_key_id = signing_key_id;
                                                    device_name = device_name;
                                                    redirect_uri = redirect_uri;
                                                    state = state;
                                                    code_challenge = code_challenge;
                                                    issued_at = issued_at;
                                                    expires_at = expires_at;
                                                  })))

  unfoldable pub validate_request : Json → ℕ → Result Binding
  unfolding validate_fields
  validate_request (object source) now = validate_fields (field_of "kind" source) source now
  validate_request _ now = err "Local device authorization request is invalid"

  unfoldable pub verify_request : String → String → ℕ → Result Binding
  unfolding verify_bound_token validate_request
  verify_request token secret now =
      verify_bound_token token secret request_domain >>= λ v. validate_request v now

  -- `verifyLocalDeviceAuthorizationCode` of the object in the token
  unfoldable pub validate_code : Json → ℕ → Result CodePayload
  unfolding validate_fields
  validate_code (object source) now =
      throw_first (
        (
          not (is_text (field_of "kind" source) "code"),
          "Local device authorization code has the wrong purpose",
        )
        ∷ [])
      >> (validate_fields (quoted "request") source now >>= λ request.
          required_bound_string (field_of "tenantId" source) "tenantId" 250 >>= λ tenant_id.
          required_bound_string (field_of "userId" source) "userId" 250 >>= λ user_id.
          ok (record { binding = request; tenant_id = tenant_id; user_id = user_id }))
  validate_code _ now = err "Local device authorization code is invalid"

  unfoldable pub verify_code : String → String → ℕ → Result CodePayload
  unfolding verify_bound_token validate_code
  verify_code token secret now =
      verify_bound_token token secret code_domain >>= λ v. validate_code v now

  abbrev pub binding_of : RequestOptions → Binding
  binding_of o = record {
    enrollment_id = o.enrollment_id;
    server_id = o.server_id;
    server_origin = o.server_origin;
    signing_key_id = o.signing_key_id;
    device_name = o.device_name;
    redirect_uri = o.redirect_uri;
    state = o.state;
    code_challenge = o.code_challenge;
    issued_at = host.iso o.issued_at;
    expires_at = host.iso (o.issued_at + o.ttl_ms);
  }

  abbrev pub string_guard : String → String → ℕ → Bool × String
  string_guard s label maximum = (not (is_bound_string s maximum), invalid label)

  -- the checks of `createLocalDeviceAuthorizationRequest`, in their order
  abbrev pub request_guards : RequestOptions → List (Bool × String)
  request_guards o =
      secret_guard o.secret
      ∷ ttl_guard o.ttl_ms
      ∷ string_guard o.server_id "serverId" 250
      ∷ string_guard o.server_origin "serverOrigin" 2048
      ∷ string_guard o.signing_key_id "signingKeyId" 250
      ∷ string_guard o.device_name "deviceName" 120
      ∷ string_guard o.redirect_uri "redirectUri" 2048
      ∷ (not (is_bound_base64url o.state 32 128), invalid "state")
      ∷ (not (is_bound_base64url o.code_challenge 43 128), invalid "codeChallenge")
      ∷ []

  unfoldable pub create_request : RequestOptions → Result (String × Binding)
  unfolding sign_bound_token
  create_request o =
      throw_first (request_guards o)
      >> ok (sign_bound_token (request_value (binding_of o)) o.secret request_domain, binding_of o)

  abbrev pub code_of : CodeOptions → ℕ → CodePayload
  code_of o request_expiry = record {
    binding = record o.request {
      issued_at = host.iso o.issued_at;
      expires_at = host.iso (min request_expiry (o.issued_at + o.ttl_ms));
    };
    tenant_id = o.tenant_id;
    user_id = o.user_id;
  }

  abbrev pub code_guards : CodeOptions → List (Bool × String)
  code_guards o = string_guard o.tenant_id "tenantId" 250 ∷ string_guard o.user_id "userId" 250 ∷ []

  unfoldable pub create_code : CodeOptions → Result (String × CodePayload)
  unfolding sign_bound_token
  create_code o =
      throw_first (secret_guard o.secret ∷ ttl_guard o.ttl_ms ∷ [])
      >> elim (host.parse_date o.request.expires_at) [
        | none ↦ err "Local device authorization request has expired"
        | some request_expiry ↦
            throw_first (
              (leb request_expiry o.issued_at, "Local device authorization request has expired")
              ∷ [])
            >> (throw_first (code_guards o)
                >> ok (
                  sign_bound_token (code_value (code_of o request_expiry)) o.secret code_domain,
                  code_of o request_expiry,
                ))
      ]
