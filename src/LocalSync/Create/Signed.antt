-- ===== src/LocalSync/Create/Signed.antt =====
-- packages/local-sync/src/index.ts: the pages that `createLocalSyncManifestBundle` makes are in the form that
-- `verifyLocalSyncManifestBundle` looks for.
use forgetbase.Prelude.{
  ap, sym, ◌∙◌, ◌≡◌, refl, ℕ, zero, suc, ◌+◌, ◌*◌, ◌≤◌, String, true, not, Option, none, some, List,
  [], ◌∷◌, ◌++◌, length, take, drop, All, All-map, nat_eq, ltb, opt_eq, eq_refl, ok,
  throw_first-then, >>=-eq-ok, ok_equal, arith,
}
use forgetbase.LocalSync.{
  compute_entitlement_hash, compute_record_set_hash, SyncRecord, Mode, full, delta, unchanged, Page,
  SyncHost, sort_by,
}
use forgetbase.LocalSync.Verify.{Configuration, mode_eq, revision_eq, same_metadata}
use forgetbase.LocalSync.Verify.Pages.{IsAuthentic, IsLinked, all_records}
use forgetbase.LocalSync.Create.{
  Signer, CreateOptions, Plan, option_guards, chunks_from, chunks_of, check_sources, plan_manifest,
  is_valid_payload, is_valid_page, payload_of, page_of, make_pages, create_manifest_bundle,
  max_pages,
}

append-take-drop : (n : ℕ) (xs : List SyncRecord) → take n xs ++ drop n xs ≡ xs
append-take-drop zero xs = refl
append-take-drop (suc n) [] = refl
append-take-drop (suc n) (x ∷ xs) = rw (append-take-drop n xs) refl

length-drop : (n : ℕ) (xs : List SyncRecord) → length (drop n xs) ≤ length xs
length-drop zero xs = omega arith
length-drop (suc n) [] = omega arith
length-drop (suc n) (x ∷ xs) = omega (arith, length-drop n xs)

abbrev concat : List (List SyncRecord) → List SyncRecord
concat [] = []
concat (c ∷ cs) = c ++ concat cs

-- The fuel is enough: the slices are all of the records, in order.
concat-chunks_from :
    (fuel size : ℕ) (records : List SyncRecord)
    → length records ≤ fuel
    → concat (chunks_from fuel (suc size) records) ≡ records
unfolding chunks_from
concat-chunks_from zero size [] h = refl
concat-chunks_from zero size (r ∷ rs) h = absurd (omega (arith, h))
concat-chunks_from (suc fuel) size [] h = refl
concat-chunks_from (suc fuel) size (r ∷ rs) h =
    ap (λ l. r ∷ l)
      (ap (λ l. take size rs ++ l)
          (concat-chunks_from fuel size (drop size rs) (omega (arith, h, length-drop size rs)))
        ∙ append-take-drop size rs)

concat-chunks_of :
    (size : ℕ) (records : List SyncRecord) → 1 ≤ size → concat (chunks_of size records) ≡ records
unfolding chunks_of
concat-chunks_of zero records h = absurd (omega (arith, h))
concat-chunks_of (suc size) records h =
    same (chunks_from (length records) (suc size) records)
      (concat-chunks_from (length records) size records (omega arith))
  where
    same :
        (cs : List (List SyncRecord))
        → concat cs ≡ records
        → concat (elim cs [ [] ↦ [] ∷ [] | c ∷ rest ↦ c ∷ rest ]) ≡ records
    same [] e = e
    same (c ∷ cs) e = e

-- The configuration of a client is the one of the server that makes the manifest.
pub record IsFor (host : SyncHost) (signer : Signer) (o : CreateOptions) (c : Configuration)
    : Type 0 where
  pub protocol : c.protocol_version ≡ "1"
  pub server : c.server_id ≡ o.server_id
  pub tenant : c.tenant_id ≡ o.tenant_id
  pub principal_type : c.principal_type ≡ o.principal_type
  pub principal_id : c.principal_id ≡ o.principal_id
  pub key : c.signing_key_id ≡ signer.key_id
  pub verifies :
      (input : String) → host.verifies c.signing_public_key input (signer.sign input) ≡ true

opt_eq_refl : (a : Option String) → opt_eq a a ≡ true
opt_eq_refl none = refl
opt_eq_refl (some s) = eq_refl s

nat_eq_refl : (n : ℕ) → nat_eq n n ≡ true
nat_eq_refl n = ground arith

revision_eq_refl : (a : Option ℕ) → revision_eq a a ≡ true
revision_eq_refl none = refl
revision_eq_refl (some n) = nat_eq_refl n

mode_eq_refl : (m : Mode) → mode_eq m m ≡ true
mode_eq_refl full = refl
mode_eq_refl delta = refl
mode_eq_refl unchanged = refl

module _ (host : SyncHost) (signer : Signer) (iso : ℕ → String) (o : CreateOptions) where
  abbrev made : Plan → ℕ → ℕ → Option String → List SyncRecord → Page
  made plan count index previous records =
      page_of host signer iso (payload_of host signer iso o plan count index previous records)

  made-IsAuthentic :
      (c : Configuration) (plan : Plan) (count index : ℕ) (previous : Option String)
      (records : List SyncRecord)
      → IsFor host signer o c
      → IsAuthentic host c (made plan count index previous records)
  made-IsAuthentic c plan count index previous records f = record {
    identity = record {
      protocol = sym f.protocol;
      server = sym f.server;
      tenant = sym f.tenant;
      principal_type = sym f.principal_type;
      principal_id = sym f.principal_id;
      key = sym f.key;
    };
    hashed = refl;
    signed = f.verifies _;
  }

  made-same_metadata :
      (plan : Plan) (count i j : ℕ) (p q : Option String) (rs ss : List SyncRecord)
      → same_metadata host
          (payload_of host signer iso o plan count i p rs)
          (payload_of host signer iso o plan count j q ss)
        ≡ true
  made-same_metadata plan count i j p q rs ss =
      rw
        (
          eq_refl o.snapshot_id,
          mode_eq_refl plan.mode,
          nat_eq_refl o.authorization_epoch,
          nat_eq_refl o.content_generation,
          eq_refl (compute_entitlement_hash host plan.records),
          eq_refl (compute_record_set_hash host plan.records),
          revision_eq_refl o.serialization_revision,
          opt_eq_refl plan.base_hash,
          nat_eq_refl (length plan.records),
          nat_eq_refl (length plan.manifest_records),
          nat_eq_refl (length plan.removed),
          nat_eq_refl count,
          eq_refl (iso o.issued_at),
          eq_refl (iso (o.issued_at + o.lease_duration_seconds * 1000)),
          eq_refl o.minimum_client_version,
        )
        refl

  -- The pages from a place on: each is made from its chunk, and they are linked.
  record IsMade (plan : Plan) (count index : ℕ) (previous : Option String)
      (chunks : List (List SyncRecord)) (pages : List Page) : Type 0 where
    linked : IsLinked index previous pages
    made_are :
        All
          (λ page.
            (i : ℕ) × ((p : Option String) × ((rs : List SyncRecord) × (page
                  ≡ made plan count i p rs))))
          pages
    records_are : all_records pages ≡ concat chunks
    counted : length pages ≡ length chunks

  make_pages-IsMade :
      (plan : Plan) (count index : ℕ) (previous : Option String) (chunks : List (List SyncRecord))
      (pages : List Page)
      → make_pages host signer iso o plan count index previous chunks ≡ ok pages
      → IsMade plan count index previous chunks pages
  unfolding make_pages
  make_pages-IsMade plan count index previous [] pages h =
      rw (← ok_equal h) (record { linked = tt; made_are = tt; records_are = refl; counted = refl })
  make_pages-IsMade plan count index previous (chunk ∷ chunks) pages h =
      let page = made plan count index previous chunk in
      let (_, h1) =
        throw_first-then
          ((not (is_valid_payload host page.payload), "Invalid payload")
            ∷ (not (is_valid_page host page), "Invalid page")
            ∷ [])
          _ h in
      let (later, e, h2) =
        >>=-eq-ok (make_pages host signer iso o plan count (suc index) (some page.page_hash) chunks)
          _ h1 in
      let more = make_pages-IsMade plan count (suc index) (some page.page_hash) chunks later e in
      rw (← ok_equal h2) (record {
        linked = (refl, refl, more.linked);
        made_are = ((index, (previous, (chunk, refl))), more.made_are);
        records_are = ap (λ l. chunk ++ l) more.records_are;
        counted = ap suc more.counted;
      })

  -- The form of a bundle that is made with a plan.
  pub record IsBundle (plan : Plan) (pages : List Page) : Type 0 where
    pub authentic : (c : Configuration) → IsFor host signer o c → All (IsAuthentic host c) pages
    pub linked : IsLinked 0 none pages
    pub uniform :
        All (λ p. All (λ page. same_metadata host page.payload p.payload ≡ true) pages) pages
    pub filled : 1 ≤ length pages
    pub records_are : all_records pages ≡ plan.manifest_records
    pub counted : All (λ page. page.payload.page_count ≡ length pages) pages
    pub bounded : length pages ≤ max_pages

  made-IsBundle :
      (plan : Plan) (chunks : List (List SyncRecord)) (pages : List Page)
      → concat chunks ≡ plan.manifest_records
      → 1 ≤ length chunks
      → length chunks ≤ max_pages
      → IsMade plan (length chunks) 0 none chunks pages
      → IsBundle plan pages
  made-IsBundle plan chunks pages e f b m = record {
    authentic = λ c g.
        All-map (λ page (i, (p, (rs, q))). rw q (made-IsAuthentic c plan (length chunks) i p rs g))
          pages m.made_are;
    linked = m.linked;
    uniform =
        All-map
          (λ first (j, (u, (ss, v))).
            All-map
              (λ page (i, (p, (rs, q))).
                rw (q, v) (made-same_metadata plan (length chunks) i j p u rs ss))
              pages m.made_are)
          pages m.made_are;
    filled = omega (arith, m.counted, f);
    records_are = m.records_are ∙ e;
    counted = All-map (λ page (i, (p, (rs, q))). rw q (sym m.counted)) pages m.made_are;
    bounded = omega (arith, m.counted, b);
  }

  length-chunks_of : (size : ℕ) (records : List SyncRecord) → 1 ≤ length (chunks_of size records)
  unfolding chunks_of
  length-chunks_of size records = some_chunks (chunks_from (length records) size records)
    where
      some_chunks :
          (cs : List (List SyncRecord))
          → 1 ≤ length (elim cs [ [] ↦ [] ∷ [] | c ∷ rest ↦ c ∷ rest ])
      some_chunks [] = omega arith
      some_chunks (c ∷ cs) = omega arith

  -- A bundle that is made has the records of its plan, in order and divided into at least one page and at
  -- most fifty; each page says how many there are, has the place and the previous hash that the check of a manifest
  -- looks for and the metadata of each other page, and is authentic for every client that is configured
  -- for the server and accepts the signatures of the signer.
  pub create_manifest_bundle-IsBundle :
      (pages : List Page)
      → create_manifest_bundle host signer iso o ≡ ok pages
      → (plan : Plan) × (plan_manifest host o (sort_by (λ r. r.asset.stable_id) o.records)
          ≡ ok plan)
        × IsBundle plan pages
  unfolding create_manifest_bundle
  create_manifest_bundle-IsBundle pages h =
      let records = sort_by (λ (r : SyncRecord). r.asset.stable_id) o.records in
      let (g, h1) = throw_first-then (option_guards o) _ h in
      let (u, _, h2) = >>=-eq-ok (check_sources host 0 records) _ h1 in
      let (plan, p, h3) = >>=-eq-ok (plan_manifest host o records) _ h2 in
      let chunks = chunks_of o.records_per_page plan.manifest_records in
      let (b, h4) =
        throw_first-then
          ((
            ltb max_pages (length chunks),
            "Local sync manifest exceeds the maximum signed page count",
          )
            ∷ [])
          _ h3 in
      (
        plan,
        p,
        made-IsBundle plan chunks pages
            (concat-chunks_of o.records_per_page plan.manifest_records
              (ground (arith, g.1.1.1.1.1.0)))
            (length-chunks_of o.records_per_page plan.manifest_records) (ground (arith, b.0))
            (make_pages-IsMade plan (length chunks) 0 none chunks pages h4),
      )
