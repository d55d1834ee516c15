-- ===== src/LocalSync/Verify/Pages.antt =====
-- packages/local-sync/src/index.ts: what the two loops of `verifyLocalSyncManifestBundle` over the pages
-- make sure of.
use forgetbase.Prelude.{
  append_assoc, append-nil, ap, sym, ◌∙◌, ◌≡◌, refl, ℕ, suc, ◌≤◌, String, true, false, Option, none,
  some, List, [], ◌∷◌, ◌++◌, length, All, nat_eq, ltb, opt_eq, eq_iff, ok, throw_first-then,
  ok_equal, arith,
}
use forgetbase.LocalSync.{SyncRecord, Payload, Page, SyncHost, hash_of}
use forgetbase.LocalSync.Verify.{
  Configuration, has_identity, is_signed, signature_guards, check_signatures, same_metadata,
  page_guards, gather,
}

-- A page of the configured server and protocol for the configured tenant and principal.
pub record IsFrom (c : Configuration) (page : Page) : Type 0 where
  pub protocol : page.payload.protocol_version ≡ c.protocol_version
  pub server : page.payload.server_id ≡ c.server_id
  pub tenant : page.payload.tenant_id ≡ c.tenant_id
  pub principal_type : page.payload.principal_type ≡ c.principal_type
  pub principal_id : page.payload.principal_id ≡ c.principal_id
  pub key : page.signing_key_id ≡ c.signing_key_id

module _ (host : SyncHost) where
  has_identity-IsFrom :
      (c : Configuration) (page : Page) → has_identity host c page ≡ true → IsFrom c page
  has_identity-IsFrom c page h = record {
    protocol = (eq_iff _ c.protocol_version).0 (ground (arith, h));
    server = (eq_iff _ c.server_id).0 (ground (arith, h));
    tenant = (eq_iff _ c.tenant_id).0 (ground (arith, h));
    principal_type = (eq_iff _ c.principal_type).0 (ground (arith, h));
    principal_id = (eq_iff _ c.principal_id).0 (ground (arith, h));
    key = (eq_iff _ c.signing_key_id).0 (ground (arith, h));
  }

  -- A page of the configured server, hashed and signed with the configured key.
  pub record IsAuthentic (c : Configuration) (page : Page) : Type 0 where
    pub identity : IsFrom c page
    pub hashed : page.page_hash ≡ hash_of host (host.payload_value page.payload)
    pub signed : is_signed host c page ≡ true

  pub check_signatures-IsAuthentic :
      (c : Configuration) (pages : List Page)
      → check_signatures host c pages ≡ ok tt
      → All (IsAuthentic c) pages
  unfolding check_signatures
  check_signatures-IsAuthentic c [] h = tt
  check_signatures-IsAuthentic c (page ∷ pages) h =
      let (g, rest) =
        throw_first-then (signature_guards host c page) (check_signatures host c pages) h in
      (
        record {
          identity = has_identity-IsFrom c page (ground (arith, g.0));
          hashed = (eq_iff page.page_hash _).0 (ground (arith, g.1.0));
          signed = ground (arith, g.1.1.0);
        },
        check_signatures-IsAuthentic c pages rest,
      )

-- Each page has its place as its index, and the hash of the page before it as its previous hash.
abbrev pub IsLinked : ℕ → Option String → List Page → Type 0
IsLinked index previous [] = Unit
IsLinked index previous (page ∷ pages) =
    (page.payload.page_index ≡ index)
    × (page.payload.previous_page_hash ≡ previous)
    × IsLinked (suc index) (some page.page_hash) pages

abbrev pub all_records : List Page → List SyncRecord
all_records [] = []
all_records (page ∷ pages) = page.payload.records ++ all_records pages

pub opt_eq-eq : (a b : Option String) → opt_eq a b ≡ true → a ≡ b
opt_eq-eq none none h = refl
opt_eq-eq none (some b) h = cc
opt_eq-eq (some a) none h = cc
opt_eq-eq (some a) (some b) h = ap some ((eq_iff a b).0 h)

nat_eq-suc : (n : ℕ) → nat_eq (suc n) 0 ≡ false
nat_eq-suc n = ground arith

no_texts : (l : List String) → ltb 0 (length l) ≡ false → l ≡ []
no_texts [] h = refl
no_texts (x ∷ l) h = absurd (ground arith)

module _ (host : SyncHost) (c : Configuration) (first : Payload) where
  -- a page that passes the guards of its round
  pub record IsUniform (page : Page) : Type 0 where
    pub bounded : length page.payload.records ≤ c.max_records_per_page
    pub metadata : same_metadata host page.payload first ≡ true

  -- what the rounds from `index` on give
  pub record IsGathered (index : ℕ) (previous : Option String) (records : List SyncRecord)
      (removed : List String) (pages : List Page) (out : List SyncRecord × List String)
      : Type 0 where
    pub linked : IsLinked index previous pages
    pub uniform : All IsUniform pages
    pub records_are : out.0 ≡ records ++ all_records pages

  pub gather-IsGathered :
      (index : ℕ) (previous : Option String) (records : List SyncRecord) (removed : List String)
      (pages : List Page) (out : List SyncRecord × List String)
      → gather host c first index previous records removed pages ≡ ok out
      → IsGathered index previous records removed pages out
  unfolding gather
  gather-IsGathered index previous records removed [] out h = record {
    linked = tt;
    uniform = tt;
    records_are = sym (ap (λ o. o.0) (ok_equal h)) ∙ sym (append-nil records);
  }
  gather-IsGathered index previous records removed (page ∷ pages) out h =
      let (g, rest) = throw_first-then (page_guards host c first index previous page.payload) _ h in
      let more =
        gather-IsGathered (suc index) (some page.page_hash) (records ++ page.payload.records) _
          pages out rest in
      record {
        linked = (ground (arith, g.0), opt_eq-eq _ _ (ground (arith, g.0)), more.linked);
        uniform = (
          record { bounded = ground (arith, g.1.0); metadata = ground (arith, g.1.1.0) },
          more.uniform,
        );
        records_are =
            more.records_are ∙ append_assoc records page.payload.records (all_records pages);
      }

  -- the removed ids of the pages, of which only the first may have any
  pub gather-removed :
      (index : ℕ) (previous : Option String) (records : List SyncRecord) (removed : List String)
      (pages : List Page) (out : List SyncRecord × List String)
      → gather host c first (suc index) previous records removed pages ≡ ok out
      → (out.1 ≡ removed) × All (λ page. page.payload.removed_stable_ids ≡ []) pages
  unfolding gather
  gather-removed index previous records removed [] out h = (sym (ap (λ o. o.1) (ok_equal h)), tt)
  gather-removed index previous records removed (page ∷ pages) out h =
      let (g, rest) =
        throw_first-then (page_guards host c first (suc index) previous page.payload) _ h in
      let (e, more) =
        gather-removed (suc index) (some page.page_hash) (records ++ page.payload.records) removed
          pages out (rw (nat_eq-suc index) at rest) in
      (e, (no_texts page.payload.removed_stable_ids (ground (arith, g.1.1.1.1.0)), more))
