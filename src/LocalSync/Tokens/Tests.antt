-- ===== src/LocalSync/Tokens/Tests.antt =====
-- Runs of the tokens, and an instance of each of their theorems. The host of the runs keeps two values
-- under the names of their texts.
use forgetbase.Prelude.{
  ℕ, String, ◌≡◌, refl, none, some, Option, List, [], ◌∷◌, codes, decimal, nat_eq, ok,
  if◌then◌else◌, ◌==◌, arith,
}
use forgetbase.Updater.Semver.{parse_int, parse_int_from, to_double}
use forgetbase.LocalSync.Canonical.{Json, quoted, object}
use forgetbase.LocalSync.Tokens.{
  TokenHost, Binding, CodePayload, RequestOptions, CodeOptions, field_of, request_value, code_value,
  request_domain, code_domain, split_token, sign_bound_token, verify_bound_token, validate_fields,
  validate_request, verify_request, validate_code, verify_code, create_request, create_code,
}
use forgetbase.LocalSync.Tokens.Signatures.{IsEncoded}
use forgetbase.LocalSync.Tokens.RoundTrip.{
  verify_request-create, request_no_code, verify_code-create,
}

-- a secret of 32 characters
abbrev secret : String
secret = "0123456789abcdef0123456789abcdef"

abbrev request_options : RequestOptions
request_options = record {
  secret = secret;
  enrollment_id = "enrollment";
  server_id = "server";
  server_origin = "https://example.org";
  signing_key_id = "key";
  device_name = "laptop";
  redirect_uri = "http://127.0.0.1/done";
  state = secret;
  code_challenge = "0123456789abcdef0123456789abcdef0123456789abcdef";
  issued_at = 5000;
  ttl_ms = 300000;
}

abbrev signed_request : Binding
signed_request = record {
  enrollment_id = "enrollment";
  server_id = "server";
  server_origin = "https://example.org";
  signing_key_id = "key";
  device_name = "laptop";
  redirect_uri = "http://127.0.0.1/done";
  state = secret;
  code_challenge = "0123456789abcdef0123456789abcdef0123456789abcdef";
  issued_at = "5000";
  expires_at = "305000";
}

abbrev signed_code : CodePayload
signed_code = record {
  binding = record signed_request { issued_at = "200000"; expires_at = "305000" };
  tenant_id = "tenant";
  user_id = "user";
}

-- the text of a value, by its kind
abbrev name_of : Json → String
name_of (object fields) = elim (field_of "kind" fields) [ quoted k ↦ k | _ ↦ "" ]
name_of _ = ""

abbrev value_of : String → Option Json
value_of s =
    if s == "request"
    then some (request_value signed_request)
    else if s == "code"
    then some (code_value signed_code)
    else none

-- Bytes are the code points of a text.
abbrev bytes_of : String → List ℕ
bytes_of = codes

abbrev text_of : List ℕ → String
text_of bs = elim bs [
  | [] ↦ ""
  | b ∷ _ ↦ if nat_eq b 114 then "request" else if nat_eq b 99 then "code" else "mac"
]

abbrev host : TokenHost
host = record {
  byte_length = λ s. 32;
  utf8 = bytes_of;
  of_utf8 = text_of;
  to_base64url = text_of;
  of_base64url = bytes_of;
  hmac = λ key message. codes "mac";
  json = name_of;
  parse_json = value_of;
  parse_date = λ s. some (parse_int (codes s));
  iso = decimal;
}

opened : Unit {0}
unfolding parse_int parse_int_from to_double decimal split_token sign_bound_token verify_bound_token
    validate_fields validate_request verify_request validate_code verify_code create_request
    create_code
opened = tt

create_run : create_request host request_options ≡ ok ("request.mac", signed_request)
unfolding opened
create_run = refl

verify_run : verify_request host "request.mac" secret 6000 ≡ ok signed_request
unfolding opened
verify_run = refl

request-IsEncoded : IsEncoded host (request_value signed_request) secret request_domain
unfolding opened
request-IsEncoded = record {
  value_decodes = refl;
  value_part = refl;
  mac_decodes = refl;
  mac_part = refl;
  small = omega arith;
}

code-IsEncoded : IsEncoded host (code_value signed_code) secret code_domain
unfolding opened
code-IsEncoded = record {
  value_decodes = refl;
  value_part = refl;
  mac_decodes = refl;
  mac_part = refl;
  small = omega arith;
}

verify_request-create_example : verify_request host "request.mac" secret 6000 ≡ ok signed_request
unfolding opened
verify_request-create_example =
    verify_request-create host request_options 6000 "request.mac" signed_request refl
      request-IsEncoded (record { parses = refl; bounded = refl })
      (record { parses = refl; bounded = refl }) refl (omega arith) (omega arith)

request_no_code_example : ¬ (
    verify_code host
      (sign_bound_token host (request_value signed_request) secret request_domain)
      secret
      6000
    ≡ ok signed_code)
request_no_code_example =
    request_no_code host signed_request secret 6000 signed_code request-IsEncoded

abbrev code_options : CodeOptions
code_options = record {
  request = signed_request;
  tenant_id = "tenant";
  user_id = "user";
  secret = secret;
  issued_at = 200000;
  ttl_ms = 120000;
}

verify_code-create_example : verify_code host "code.mac" secret 210000 ≡ ok signed_code
unfolding opened
verify_code-create_example =
    verify_code-create host code_options "request.mac" secret 6000 210000 "code.mac" signed_code
      305000 refl refl refl code-IsEncoded (record { parses = refl; bounded = refl })
      (record { parses = refl; bounded = refl }) (omega arith) (omega arith)
