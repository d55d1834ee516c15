-- ===== src/LocalSync/SourceRef.antt =====
-- packages/local-sync/src/index.ts: `assertLocalSyncSourceRef`, as a test of the text; the error is one
-- and the same for every reason.
use forgetbase.Prelude.{
  ℕ, ◌+◌, String, Bool, true, false, not, ◌&&◌, ◌||◌, Option, none, some, List, [], ◌∷◌, any,
  if◌then◌else◌, nat_eq, ltb, text_length, codes, is_upper, ◌==◌,
}
use forgetbase.LocalSync.{SyncHost, Url}

-- `toLowerCase` of a code point of ASCII
abbrev pub lower_code : ℕ → ℕ
lower_code c = if is_upper c then c + 32 else c

abbrev pub codes_eq : List ℕ → List ℕ → Bool
codes_eq [] [] = true
codes_eq (c ∷ cs) (d ∷ ds) = nat_eq c d && codes_eq cs ds
codes_eq _ _ = false

-- the text starts with a word, in upper or lower_code case
abbrev pub starts_with : List ℕ → List ℕ → Bool
starts_with [] cs = true
starts_with (w ∷ ws) [] = false
starts_with (w ∷ ws) (c ∷ cs) = nat_eq w (lower_code c) && starts_with ws cs

-- `/^(?:file|data|javascript|vbscript):/i`
abbrev pub has_refused_scheme : List ℕ → Bool
has_refused_scheme cs =
    starts_with (codes "file:") cs
    || starts_with (codes "data:") cs
    || starts_with (codes "javascript:") cs
    || starts_with (codes "vbscript:") cs

-- `/[\u0000-\u0020\u007f]/`
abbrev pub has_space : List ℕ → Bool
has_space = any (λ c. ltb c 33 || nat_eq c 127)

-- `text.split("/")`
unfoldable pub segments : List ℕ → List (List ℕ)
segments [] = [] ∷ []
segments (c ∷ cs) = elim (segments cs) [
  | [] ↦ (c ∷ []) ∷ []
  | part ∷ parts ↦ if nat_eq c b'/' then [] ∷ part ∷ parts else (c ∷ part) ∷ parts
]

-- the scheme is `http` or `https`
abbrev pub is_web : List ℕ → Bool
is_web cs = starts_with (codes "http:") cs || starts_with (codes "https:") cs

-- `!url.hostname || url.username || url.password`, and a text that `new URL` refuses
abbrev pub is_bad_url : Option Url → Bool
is_bad_url none = true
is_bad_url (some url) = url.hostname == "" || not (url.username == "") || not (url.password == "")

unfoldable pub is_unsafe_ref : SyncHost → Option String → Bool
unfolding segments
is_unsafe_ref host none = false
is_unsafe_ref host (some value) =
    value == ""
    || ltb 2048 (text_length value)
    || has_space (codes value)
    || has_refused_scheme (codes value)
    || any (λ segment. codes_eq segment (codes "..")) (segments (codes value))
    || (is_web (codes value) && is_bad_url (host.parse_url value))
