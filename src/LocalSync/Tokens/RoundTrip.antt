-- ===== src/LocalSync/Tokens/RoundTrip.antt =====
-- packages/local-sync/src/index.ts: requests and codes that are created and then verified.
use forgetbase.Prelude.{
  subst, ◌≡◌, refl, ℕ, ◌+◌, ◌-◌, min, ◌≤◌, ◌<◌, String, true, false, some, [], ◌∷◌, ltb, leb, ok,
  throw_first-then, >>=-eq-ok, ok_equal, Bool-cases, Option-cases, inl, inr, arith,
}
use forgetbase.LocalSync.Canonical.{Json, quoted, object, Fields, no_fields}
use forgetbase.LocalSync.Tokens.{
  TokenHost, Binding, CodePayload, RequestOptions, CodeOptions, payload_fields, request_value,
  code_value, code_entries, field_of, is_bound_string, is_bound_base64url, required_bound_string,
  required_bound_base64url, required_bound_date_time, timing_guards, purpose_guards,
  validate_fields, validate_request, validate_code, verify_request, verify_code, verify_bound_token,
  sign_bound_token, request_domain, code_domain, binding_of, request_guards, create_request,
  code_of, code_guards, create_code, secret_guard, ttl_guard, max_token_ttl_ms,
}
use forgetbase.LocalSync.Tokens.Signatures.{IsEncoded, verify-sign, verify-value}

-- The texts of a binding are in their bounds.
pub record IsBound (b : Binding) : Type 0 where
  pub enrollment_id : is_bound_string b.enrollment_id 250 ≡ true
  pub server_id : is_bound_string b.server_id 250 ≡ true
  pub server_origin : is_bound_string b.server_origin 2048 ≡ true
  pub signing_key_id : is_bound_string b.signing_key_id 250 ≡ true
  pub device_name : is_bound_string b.device_name 120 ≡ true
  pub redirect_uri : is_bound_string b.redirect_uri 2048 ≡ true
  pub state : is_bound_base64url b.state 32 128 ≡ true
  pub code_challenge : is_bound_base64url b.code_challenge 43 128 ≡ true

string-bound :
    (v : Json) (label : String) (maximum : ℕ) (s : String)
    → required_bound_string v label maximum ≡ ok s
    → is_bound_string s maximum ≡ true
string-bound (quoted t) label maximum s h = elim (Bool-cases (is_bound_string t maximum)) [
  | inl fits ↦ rw (← ok_equal (rw fits at h)) fits
  | inr bad ↦ absurd (ground (arith, bad, h))
]
string-bound _ label maximum s h = cc

base64url-bound :
    (v : Json) (label : String) (minimum maximum : ℕ) (s : String)
    → required_bound_base64url v label minimum maximum ≡ ok s
    → is_bound_base64url s minimum maximum ≡ true
base64url-bound (quoted t) label minimum maximum s h =
    elim (Bool-cases (is_bound_base64url t minimum maximum)) [
      | inl fits ↦ rw (← ok_equal (rw fits at h)) fits
      | inr bad ↦ absurd (ground (arith, bad, h))
    ]
base64url-bound _ label minimum maximum s h = cc

module _ (host : TokenHost) where
  -- A text that is the date of a time.
  pub record IsDate (s : String) (t : ℕ) : Type 0 where
    pub parses : host.parse_date s ≡ some t
    pub bounded : is_bound_string s 64 ≡ true

  -- The times of a binding at the time `now`.
  pub record IsTimely (b : Binding) (now : ℕ) : Type 0 where
    pub issued : ℕ
    pub expires : ℕ
    pub issued_date : IsDate b.issued_at issued
    pub expires_date : IsDate b.expires_at expires
    pub not_early : issued ≤ now + 300000
    pub not_late : now < expires
    pub short : expires ≤ issued + max_token_ttl_ms

  validate-payload :
      (kind : String) (b : Binding) (rest : Fields) (now : ℕ)
      → IsBound b
      → IsTimely b now
      → validate_fields host (quoted "request") (payload_fields kind b rest) now ≡ ok b
  unfolding validate_fields
  validate-payload kind b rest now h t =
      let early : ltb (now + 300000) t.issued ≡ false = ground (arith, t.not_early) in
      let late : leb t.expires now ≡ false = ground (arith, t.not_late) in
      let short : ltb max_token_ttl_ms (t.expires - t.issued) ≡ false = ground (arith, t.short) in
      rw
        (
          t.issued_date.bounded, t.issued_date.parses, t.expires_date.bounded,
          t.expires_date.parses, early, late, short, h.enrollment_id, h.server_id, h.server_origin,
          h.signing_key_id, h.device_name, h.redirect_uri, h.state, h.code_challenge,
        )
        refl

  IsDate-bound :
      (v : Json) (label : String) (s : String) (t : ℕ)
      → required_bound_date_time host v label ≡ ok (s, t)
      → IsDate s t
  IsDate-bound v label s t h =
      let (s', e, f) = >>=-eq-ok (required_bound_string v label 64) _ h in
      elim (Option-cases (host.parse_date s')) [
        | inl no_date ↦ absurd (ground (arith, no_date, f))
        | inr (t', p) ↦
            subst (λ x. IsDate x.0 x.1) (ok_equal (rw p at f))
              (record { parses = p; bounded = string-bound v label 64 s' e })
      ]

  -- What a validated payload is like.
  pub validate_fields-IsBound :
      (kind : Json) (source : Fields) (now : ℕ) (b : Binding)
      → validate_fields host kind source now ≡ ok b
      → IsBound b × IsTimely b now
  unfolding validate_fields
  validate_fields-IsBound kind source now b h =
      let (_, h0) =
        throw_first-then (purpose_guards host kind (field_of "codeChallengeMethod" source)) _ h in
      let ((issued_at, issued), e1, h1) =
        >>=-eq-ok (required_bound_date_time host (field_of "issuedAt" source) "issuedAt") _ h0 in
      let ((expires_at, expires), e2, h2) =
        >>=-eq-ok (required_bound_date_time host (field_of "expiresAt" source) "expiresAt") _ h1 in
      let ((timing, _), h3) = throw_first-then (timing_guards host now issued expires) _ h2 in
      let (v1, f1, k1) =
        >>=-eq-ok (required_bound_string (field_of "enrollmentId" source) "enrollmentId" 250) _
          h3 in
      let (v2, f2, k2) =
        >>=-eq-ok (required_bound_string (field_of "serverId" source) "serverId" 250) _ k1 in
      let (v3, f3, k3) =
        >>=-eq-ok (required_bound_string (field_of "serverOrigin" source) "serverOrigin" 2048) _
          k2 in
      let (v4, f4, k4) =
        >>=-eq-ok (required_bound_string (field_of "signingKeyId" source) "signingKeyId" 250) _
          k3 in
      let (v5, f5, k5) =
        >>=-eq-ok (required_bound_string (field_of "deviceName" source) "deviceName" 120) _ k4 in
      let (v6, f6, k6) =
        >>=-eq-ok (required_bound_string (field_of "redirectUri" source) "redirectUri" 2048) _ k5 in
      let (v7, f7, k7) =
        >>=-eq-ok (required_bound_base64url (field_of "state" source) "state" 32 128) _ k6 in
      let (v8, f8, k8) =
        >>=-eq-ok
          (required_bound_base64url (field_of "codeChallenge" source) "codeChallenge" 43 128) _
          k7 in
      rw (← ok_equal k8) (
        record {
          enrollment_id = string-bound (field_of "enrollmentId" source) "enrollmentId" 250 v1 f1;
          server_id = string-bound (field_of "serverId" source) "serverId" 250 v2 f2;
          server_origin = string-bound (field_of "serverOrigin" source) "serverOrigin" 2048 v3 f3;
          signing_key_id = string-bound (field_of "signingKeyId" source) "signingKeyId" 250 v4 f4;
          device_name = string-bound (field_of "deviceName" source) "deviceName" 120 v5 f5;
          redirect_uri = string-bound (field_of "redirectUri" source) "redirectUri" 2048 v6 f6;
          state = base64url-bound (field_of "state" source) "state" 32 128 v7 f7;
          code_challenge =
              base64url-bound (field_of "codeChallenge" source) "codeChallenge" 43 128 v8 f8;
        },
        record {
          issued = issued;
          expires = expires;
          issued_date = IsDate-bound (field_of "issuedAt" source) "issuedAt" issued_at issued e1;
          expires_date =
              IsDate-bound (field_of "expiresAt" source) "expiresAt" expires_at expires e2;
          not_early = ground (arith, timing);
          not_late = ground (arith, timing);
          short = ground (arith, timing);
        },
      )

  -- A request that is created is verified from five minutes before its issue until it expires, and gives
  -- the binding that was signed, provided that the id of the enrollment is a text of at most 250
  -- characters, that the encodings round-trip and that the token is not too large.
  pub verify_request-create :
      (o : RequestOptions) (now : ℕ) (token : String) (b : Binding)
      → create_request host o ≡ ok (token, b)
      → IsEncoded host (request_value (binding_of host o)) o.secret request_domain
      → IsDate (host.iso o.issued_at) o.issued_at
      → IsDate (host.iso (o.issued_at + o.ttl_ms)) (o.issued_at + o.ttl_ms)
      → is_bound_string o.enrollment_id 250 ≡ true
      → o.issued_at ≤ now + 300000
      → now < o.issued_at + o.ttl_ms
      → verify_request host token o.secret now ≡ ok b
  unfolding verify_request create_request validate_request
  verify_request-create o now token b h e issued expires id early late =
      let (g, made) = throw_first-then (request_guards host o) _ h in
      let same_pair = ok_equal made in
      let (secret, (ttl, (g1, (g2, (g3, (g4, (g5, (g6, (g7, _))))))))) = g in
      let bound : IsBound (binding_of host o) = record {
        enrollment_id = id;
        server_id = ground (arith, g1);
        server_origin = ground (arith, g2);
        signing_key_id = ground (arith, g3);
        device_name = ground (arith, g4);
        redirect_uri = ground (arith, g5);
        state = ground (arith, g6);
        code_challenge = ground (arith, g7);
      } in
      let timely : IsTimely (binding_of host o) now = record {
        issued = o.issued_at;
        expires = o.issued_at + o.ttl_ms;
        issued_date = issued;
        expires_date = expires;
        not_early = early;
        not_late = late;
        short = ground (arith, ttl);
      } in
      subst (λ x. verify_request host x.0 o.secret now ≡ ok x.1) same_pair
        (rw (verify-sign host (request_value (binding_of host o)) o.secret request_domain e secret)
          (validate-payload "request" (binding_of host o) no_fields now bound timely))

  not_code :
      (b : Binding) (now : ℕ) (c : CodePayload)
      → validate_code host (request_value b) now ≡ ok c
      → ⊥
  unfolding validate_code
  not_code b now c h = cc

  -- A signed request is never accepted as a code, at any time.
  pub request_no_code :
      (b : Binding) (secret : String) (now : ℕ) (c : CodePayload)
      → IsEncoded host (request_value b) secret request_domain
      → ¬ (
          verify_code host
            (sign_bound_token host (request_value b) secret request_domain)
            secret
            now
          ≡ ok c)
  unfolding verify_code
  request_no_code b secret now c e h =
      let (v, f, k) =
        >>=-eq-ok
          (verify_bound_token host (sign_bound_token host (request_value b) secret request_domain)
            secret code_domain)
          _ h in
      let same_value =
        verify-value host (request_value b) v secret request_domain secret code_domain e f in
      not_code b now c (subst (λ x. validate_code host x now ≡ ok c) same_value k)

  validate_request-IsBound :
      (v : Json) (now : ℕ) (b : Binding)
      → validate_request host v now ≡ ok b
      → IsBound b × IsTimely b now
  unfolding validate_request
  validate_request-IsBound (object source) now b k =
      validate_fields-IsBound (field_of "kind" source) source now b k
  validate_request-IsBound _ now b k = cc

  -- what a verified request is like
  verify_request-IsBound :
      (token secret : String) (now : ℕ) (b : Binding)
      → verify_request host token secret now ≡ ok b
      → IsBound b × IsTimely b now
  unfolding verify_request
  verify_request-IsBound token secret now b h =
      let (v, _, k) = >>=-eq-ok (verify_bound_token host token secret request_domain) _ h in
      validate_request-IsBound v now b k

  validate_code-payload :
      (c : CodePayload) (now : ℕ)
      → IsBound c.binding
      → IsTimely c.binding now
      → is_bound_string c.tenant_id 250 ≡ true
      → is_bound_string c.user_id 250 ≡ true
      → validate_code host (code_value c) now ≡ ok c
  unfolding validate_code
  validate_code-payload c now b t tenant user =
      rw (validate-payload "code" c.binding (code_entries c) now b t, tenant, user) refl

  -- The code that is created for a verified request is verified from five minutes before its issue until
  -- it expires, at the latest with the request, and gives the payload that was signed, provided that the
  -- encodings round-trip and that the token is not too large.
  pub verify_code-create :
      (o : CodeOptions) (request_token request_secret : String) (earlier now : ℕ) (token : String)
      (c : CodePayload) (request_expiry : ℕ)
      → verify_request host request_token request_secret earlier ≡ ok o.request
      → host.parse_date o.request.expires_at ≡ some request_expiry
      → create_code host o ≡ ok (token, c)
      → IsEncoded host (code_value (code_of host o request_expiry)) o.secret code_domain
      → IsDate (host.iso o.issued_at) o.issued_at
      → IsDate
          (host.iso (min request_expiry (o.issued_at + o.ttl_ms)))
          (min request_expiry (o.issued_at + o.ttl_ms))
      → o.issued_at ≤ now + 300000
      → now < min request_expiry (o.issued_at + o.ttl_ms)
      → verify_code host token o.secret now ≡ ok c
  unfolding verify_code create_code
  verify_code-create o request_token request_secret earlier now token c request_expiry r x h e
        issued expires early late =
      let (bound, _) = verify_request-IsBound request_token request_secret earlier o.request r in
      let ((secret, (ttl, _)), h1) =
        throw_first-then (secret_guard host o.secret ∷ ttl_guard host o.ttl_ms ∷ []) _ h in
      let (_, h2) =
        throw_first-then
          ((leb request_expiry o.issued_at, "Local device authorization request has expired") ∷ [])
          _ (rw x at h1) in
      let ((tenant, (user, _)), made) = throw_first-then (code_guards host o) _ h2 in
      let code = code_of host o request_expiry in
      let timely : IsTimely code.binding now = record {
        issued = o.issued_at;
        expires = min request_expiry (o.issued_at + o.ttl_ms);
        issued_date = issued;
        expires_date = expires;
        not_early = early;
        not_late = late;
        short = ground (arith, ttl);
      } in
      let own : IsBound code.binding = record {
        enrollment_id = bound.enrollment_id;
        server_id = bound.server_id;
        server_origin = bound.server_origin;
        signing_key_id = bound.signing_key_id;
        device_name = bound.device_name;
        redirect_uri = bound.redirect_uri;
        state = bound.state;
        code_challenge = bound.code_challenge;
      } in
      subst (λ y. verify_code host y.0 o.secret now ≡ ok y.1) (ok_equal made)
        (rw (verify-sign host (code_value code) o.secret code_domain e secret) (
          validate_code-payload code now own timely (ground (arith, tenant))
            (ground (arith, user))))
