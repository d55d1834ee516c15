-- ===== src/LocalSync/Verify/Accepted.antt =====
-- packages/local-sync/src/index.ts: what is known of a manifest that `verifyLocalSyncManifestBundle`
-- returns, and of the errors that it trusts.
use forgetbase.Prelude.{
  ap, sym, ◌∙◌, subst, ◌≡◌, refl, ◌⊎◌, inl, inr, ℕ, ◌+◌, ◌*◌, ◌≤◌, ◌<◌, String, true, false, none,
  some, List, [], ◌∷◌, length, All, any, max, leb, ◌||◌, All-map, nat_eq, is_distinct,
  IsFresh-is_distinct, eq_iff, Bool-cases, ok, throw_first, throw_first-then, throw_first-eq-ok,
  >>=-eq-ok, Result-cases, ok_equal, ◌>>◌, arith,
}
use forgetbase.LocalSync.{
  SyncRecord, Mode, full, delta, unchanged, Payload, Page, SyncHost, normalize_removed_stable_ids,
  compute_entitlement_hash, compute_record_set_hash,
}
use forgetbase.LocalSync.Verify.{
  page_guards, VerifyOptions, Verified, verified, rejected, trusted_error, mode_eq,
  check_signatures, max_epoch, first_guards, key_guards, gather, unchanged_guards, count_guards,
  mode_guards, set_guards, check_records, check_content, verify_content, verify_manifest_bundle,
}
use forgetbase.LocalSync.Verify.Pages.{
  IsAuthentic, check_signatures-IsAuthentic, IsLinked, all_records, IsUniform, gather-IsGathered,
  gather-removed,
}
use forgetbase.LocalSync.Verify.Records.{
  IsGoodRecord, check_records-IsChecked, record_ids, record_stable_ids, normalize_removed-includes,
}

verified_equal : {a b : Verified} → verified a ≡ verified b → a ≡ b
verified_equal {a} h =
    ap (λ r. elim r [ verified x ↦ x | rejected _ ↦ a | trusted_error _ _ ↦ a ]) h

epoch_equal : {m n : String} {a b : ℕ} → trusted_error m a ≡ trusted_error n b → a ≡ b
epoch_equal h = ap (λ r. elim r [ verified _ ↦ 0 | rejected _ ↦ 0 | trusted_error _ x ↦ x ]) h

module _ (host : SyncHost) (o : VerifyOptions) where
  -- The first page is neither from the future nor from the past, and the server has not gone back.
  pub record IsCurrent (first : Payload) (pages : ℕ) : Type 0 where
    pub counted : first.page_count ≡ pages
    pub not_early : host.time_of first.server_time ≤ o.now + o.maximum_clock_skew_seconds * 1000
    pub not_late : o.now < host.time_of first.lease_expires_at
    pub lease :
        host.time_of first.lease_expires_at
        ≤ host.time_of first.server_time + o.configuration.lease_duration_seconds * 1000
    pub epoch : o.minimum_authorization_epoch ≤ first.authorization_epoch
    pub generation : o.minimum_content_generation ≤ first.content_generation

  first_guards-IsCurrent :
      (first : Payload) (pages : ℕ)
      → All (λ g. g.0 ≡ false) (first_guards host o first pages)
      → IsCurrent first pages
  first_guards-IsCurrent first pages (a, (b, (e, (d, (_, (_, (f, (g, _)))))))) = record {
    counted = ground arith;
    not_early = ground arith;
    not_late = ground arith;
    lease = ground arith;
    epoch = ground arith;
    generation = ground arith;
  }

  -- The records of a manifest, given the ids it removes.
  pub record IsContent (first : Payload) (records : List SyncRecord) (removed : List String)
      : Type 0 where
    pub good : All (IsGoodRecord host o.configuration removed) records
    pub distinct_ids : is_distinct (record_ids records) ≡ true
    pub distinct_stable_ids : is_distinct (record_stable_ids records) ≡ true
    pub whole :
        (mode_eq first.mode full ≡ false)
        ⊎ ((compute_entitlement_hash host records ≡ first.entitlement_hash)
            × (compute_record_set_hash host records ≡ first.record_set_hash))

  check_content-IsContent :
      (first : Payload) (pages : ℕ) (records : List SyncRecord) (removed : List String)
      → check_content host o.configuration first pages records removed ≡ ok tt
      → IsContent first records removed
  unfolding check_content
  check_content-IsContent first pages records removed h =
      elim (Bool-cases (mode_eq first.mode unchanged)) [
        | inl same_mode ↦
            let (bare, _) =
              throw_first-eq-ok (unchanged_guards host first pages records removed)
                (rw (check_content, same_mode) at h) in
            empty (no_records records (ground (arith, bare))) (no_full first.mode same_mode)
        | inr changed ↦
            let (_, h1) =
              throw_first-then (count_guards host first records removed) _
                (rw (check_content, changed) at h) in
            let (normalized, n, h2) = >>=-eq-ok (normalize_removed_stable_ids removed) _ h1 in
            let (_, h3) =
              throw_first-then (mode_guards host first records removed normalized) _ h2 in
            let (u, k, h4) =
              >>=-eq-ok (check_records host o.configuration normalized 0 [] [] records)
                (λ _. throw_first (set_guards host first records)) h3 in
            let checked =
              check_records-IsChecked host o.configuration normalized 0 [] [] records k in
            let (set, _) = throw_first-eq-ok (set_guards host first records) h4 in
            record {
              good =
                  All-map
                    (λ r g. record {
                      eligible = g.eligible;
                      kept =
                          sym (normalize_removed-includes removed normalized r.asset.stable_id n)
                          ∙ g.kept;
                      hashed = g.hashed;
                      safe = g.safe;
                    })
                    records checked.good;
              distinct_ids = IsFresh-is_distinct [] _ checked.fresh_ids;
              distinct_stable_ids = IsFresh-is_distinct [] _ checked.fresh_stable_ids;
              whole = elim (Bool-cases (mode_eq first.mode full)) [
                | inr partial ↦ inl partial
                | inl entire ↦ inr (
                  (eq_iff _ first.entitlement_hash).0 (ground (arith, set, entire)),
                  (eq_iff _ first.record_set_hash).0 (ground (arith, set, entire)),
                )
              ];
            }
      ]
    where
      no_records : (rs : List SyncRecord) → nat_eq (length rs) 0 ≡ true → rs ≡ []
      no_records [] h = refl
      no_records (r ∷ rs) h = absurd (ground arith)

      no_full : (m : Mode) → mode_eq m unchanged ≡ true → mode_eq m full ≡ false
      no_full full h = cc
      no_full delta h = refl
      no_full unchanged h = refl

      empty : records ≡ [] → mode_eq first.mode full ≡ false → IsContent first records removed
      empty e n = record {
        good = rw e tt;
        distinct_ids = rw e refl;
        distinct_stable_ids = rw e refl;
        whole = inl n;
      }

  -- What `verifyLocalSyncManifestBundle` promises of the manifest that it returns.
  pub record IsAccepted (first : Page) (rest : List Page) (m : Verified) : Type 0 where
    pub authentic : All (IsAuthentic host o.configuration) (first ∷ rest)
    pub linked : IsLinked 0 none (first ∷ rest)
    pub uniform : All (IsUniform host o.configuration first.payload) (first ∷ rest)
    pub current : IsCurrent first.payload (length (first ∷ rest))
    pub page_is : m.page ≡ first
    pub records_are : m.records ≡ all_records (first ∷ rest)
    pub removed_are : m.removed_stable_ids ≡ first.payload.removed_stable_ids
    pub no_later_removals : All (λ page. page.payload.removed_stable_ids ≡ []) rest
    pub content : IsContent first.payload m.records m.removed_stable_ids

  first-removed :
      (first : Page) (rest : List Page) (out : List SyncRecord × List String)
      → gather host o.configuration first.payload 0 none [] [] (first ∷ rest) ≡ ok out
      → (out.1 ≡ first.payload.removed_stable_ids)
        × All (λ page. page.payload.removed_stable_ids ≡ []) rest
  unfolding gather
  first-removed first rest out h =
      let (_, later) =
        throw_first-then (page_guards host o.configuration first.payload 0 none first.payload) _
          h in
      gather-removed host o.configuration first.payload 0 (some first.page_hash)
        first.payload.records first.payload.removed_stable_ids rest out later

  verify_content-IsAccepted :
      (first : Page) (rest : List Page) (m : Verified)
      → All (IsAuthentic host o.configuration) (first ∷ rest)
      → verify_content host o first (first ∷ rest) ≡ ok m
      → IsAccepted first rest m
  unfolding verify_content
  verify_content-IsAccepted first rest m a h =
      let (g, h1) =
        throw_first-then (first_guards host o first.payload (length (first ∷ rest))) _ h in
      let (out, e, h2) =
        >>=-eq-ok (gather host o.configuration first.payload 0 none [] [] (first ∷ rest)) _ h1 in
      let (u, k, h3) =
        >>=-eq-ok
          (check_content host o.configuration first.payload (length (first ∷ rest)) out.0 out.1) _
          h2 in
      let gathered =
        gather-IsGathered host o.configuration first.payload 0 none [] [] (first ∷ rest) out e in
      let (removed, later) = first-removed first rest out e in
      let same_manifest = ok_equal h3 in
      record {
        authentic = a;
        linked = gathered.linked;
        uniform = gathered.uniform;
        current = first_guards-IsCurrent first.payload (length (first ∷ rest)) g;
        page_is = sym (ap (λ v. v.page) same_manifest);
        records_are = sym (ap (λ v. v.records) same_manifest) ∙ gathered.records_are;
        removed_are = sym (ap (λ v. v.removed_stable_ids) same_manifest) ∙ removed;
        no_later_removals = later;
        content =
            subst (λ v. IsContent first.payload v.records v.removed_stable_ids) same_manifest
              (check_content-IsContent first.payload (length (first ∷ rest)) out.0 out.1 k);
      }

  -- What a run of the whole check may return.
  signed_pages :
      (pages : List Page)
      → (throw_first (key_guards host o.configuration)
          >> check_signatures host o.configuration pages)
        ≡ ok tt
      → All (IsAuthentic host o.configuration) pages
  signed_pages pages h =
      let (_, k) =
        throw_first-then (key_guards host o.configuration)
          (check_signatures host o.configuration pages) h in
      check_signatures-IsAuthentic host o.configuration pages k

  -- A manifest that is returned comes from pages that are all hashed and signed with the configured key by
  -- the configured server for the configured principal, in their order and each with the hash of the
  -- page before it, with the same metadata on each; it is not from the future, its lease has not
  -- expired and is not longer than configured, and neither its epoch nor its generation is below its
  -- high-water mark. Its records are those of the pages, in order; they are eligible under the configuration, have the
  -- hashes of their contents, safe source references and distinct ids, and none of them is also removed;
  -- and in a full manifest they have the signed hashes of the set.
  pub verify_manifest_bundle-IsAccepted :
      (first : Page) (rest : List Page) (m : Verified)
      → verify_manifest_bundle host (first ∷ rest) o ≡ verified m
      → IsAccepted first rest m
  unfolding verify_manifest_bundle
  verify_manifest_bundle-IsAccepted first rest m h =
      elim (Result-cases (
        throw_first (key_guards host o.configuration)
        >> check_signatures host o.configuration (first ∷ rest))) [
          | inl (message, e) ↦ absurd (ground (arith, e, h))
          | inr (_, e) ↦ elim (Result-cases (verify_content host o first (first ∷ rest))) [
            | inl (message, f) ↦ absurd (ground (arith, e, f, h))
            | inr (m', f) ↦
                let same_manifest = verified_equal (rw (verify_manifest_bundle, e, f) at h) in
                subst (IsAccepted first rest) same_manifest
                  (verify_content-IsAccepted first rest m' (signed_pages (first ∷ rest) e) f)
          ]
        ]

  -- `epoch` is the highest epoch of the pages: none has a higher one, and some page has it.
  pub record IsHighest (epoch : ℕ) (pages : List Page) : Type 0 where
    pub bound : All (λ page. page.payload.authorization_epoch ≤ epoch) pages
    pub reached : any (λ page. nat_eq page.payload.authorization_epoch epoch) pages ≡ true

  max_epoch-bound :
      (pages : List Page) (n : ℕ)
      → max_epoch host pages ≤ n
      → All (λ page. page.payload.authorization_epoch ≤ n) pages
  max_epoch-bound [] n h = tt
  max_epoch-bound (page ∷ pages) n h =
      (omega (arith, h), max_epoch-bound pages n (omega (arith, h)))

  max_epoch-IsHighest :
      (first : Page) (rest : List Page) → IsHighest (max_epoch host (first ∷ rest)) (first ∷ rest)
  max_epoch-IsHighest first rest = record {
    bound = max_epoch-bound (first ∷ rest) _ (omega arith);
    reached = reaches first rest;
  }
    where
      reaches :
          (first : Page) (rest : List Page)
          → any
              (λ page. nat_eq page.payload.authorization_epoch (max_epoch host (first ∷ rest)))
              (first ∷ rest)
            ≡ true
      reaches first [] = ground arith
      reaches first (page ∷ pages) =
          let e = first.payload.authorization_epoch in
          let later = max_epoch host (page ∷ pages) in
          let rest_reaches = reaches page pages in
          elim (Bool-cases (leb later e)) [
            | inl below ↦
                let same_epoch : max e later ≡ e = ground (arith, below) in
                rw same_epoch (ground arith)
            | inr above ↦
                let same_epoch : max e later ≡ later = ground (arith, above) in
                subst
                  (λ n.
                    (nat_eq e n || any (λ p. nat_eq p.payload.authorization_epoch n) (page ∷ pages))
                    ≡ true)
                  (sym same_epoch) (ground (arith, rest_reaches))
          ]

  -- An error that carries an epoch comes from pages that are all hashed and signed with the configured key, and its epoch
  -- is the highest of theirs: no page has a higher one, and some page has it.
  pub trusted_error-IsAuthentic :
      (pages : List Page) (message : String) (epoch : ℕ)
      → verify_manifest_bundle host pages o ≡ trusted_error message epoch
      → All (IsAuthentic host o.configuration) pages × IsHighest epoch pages
  unfolding verify_manifest_bundle
  trusted_error-IsAuthentic [] message epoch h = cc
  trusted_error-IsAuthentic (first ∷ rest) message epoch h =
      elim (Result-cases (
        throw_first (key_guards host o.configuration)
        >> check_signatures host o.configuration (first ∷ rest))) [
          | inl (message', e) ↦ absurd (ground (arith, e, h))
          | inr (_, e) ↦ elim (Result-cases (verify_content host o first (first ∷ rest))) [
            | inr (m, f) ↦ absurd (ground (arith, e, f, h))
            | inl (message', f) ↦ (
              signed_pages (first ∷ rest) e,
              subst (λ n. IsHighest n (first ∷ rest))
                  (epoch_equal (rw (verify_manifest_bundle, e, f) at h))
                  (max_epoch-IsHighest first rest),
            )
          ]
        ]
