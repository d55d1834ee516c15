-- ===== src/LocalSync/Verify/Records.antt =====
-- packages/local-sync/src/index.ts: what `verifyLocalSyncManifestBundle` makes sure of about records.
use forgetbase.Prelude.{
  true, ◌≡◌, refl, inl, inr, ℕ, ◌+◌, ◌≤◌, String, Bool, false, not, ◌||◌, List, [], ◌∷◌, map, any,
  length, All, ltb, includes, is_distinct, IsFresh, ◌==◌, eq_iff, text_below, Bool-cases, ok,
  throw_first-then, ok_equal, arith,
}
use forgetbase.LocalSync.{
  SyncRecord, SyncHost, expected_hash, insert_by, sort_by, normalize_removed_stable_ids,
  is_bad_removal, local_sync_max_records,
}
use forgetbase.LocalSync.SourceRef.{is_unsafe_ref}
use forgetbase.LocalSync.Verify.{Configuration, is_ineligible, record_guards, check_records}

abbrev pub record_ids : List SyncRecord → List String
record_ids = map (λ r. r.record_id)

abbrev pub record_stable_ids : List SyncRecord → List String
record_stable_ids = map (λ r. r.asset.stable_id)

module _ (host : SyncHost) (c : Configuration) where
  abbrev pub bytes_of : List SyncRecord → ℕ
  bytes_of [] = 0
  bytes_of (r ∷ rs) = host.byte_length (host.json (host.record_value r)) + bytes_of rs

  -- An approved, active record of the tenant, for the local cache and of a sensitivity that is allowed.
  pub record IsEligible (r : SyncRecord) : Type 0 where
    pub tenant : r.asset.tenant_id ≡ c.tenant_id
    pub active : r.asset.lifecycle_state ≡ "active"
    pub approved : r.asset.status ≡ "approved"
    pub allowed : includes r.asset.sensitivity c.allowed_sensitivities ≡ true
    pub cached : includes "local-cache" r.asset.allowed_surfaces ≡ true

  ineligible-IsEligible : (r : SyncRecord) → is_ineligible host c r ≡ false → IsEligible r
  ineligible-IsEligible r h = record {
    tenant = (eq_iff r.asset.tenant_id c.tenant_id).0 (ground (arith, h));
    active = (eq_iff r.asset.lifecycle_state "active").0 (ground (arith, h));
    approved = (eq_iff r.asset.status "approved").0 (ground (arith, h));
    allowed = ground (arith, h);
    cached = ground (arith, h);
  }

  -- A record that the configuration allows, unchanged since its hash was made.
  pub record IsGoodRecord (removals : List String) (r : SyncRecord) : Type 0 where
    pub eligible : IsEligible r
    pub kept : includes r.asset.stable_id removals ≡ false
    pub hashed : r.payload_hash ≡ expected_hash host r
    pub safe : is_unsafe_ref host r.asset.source_ref ≡ false

  pub record IsChecked (removals : List String) (bytes : ℕ) (ids stable_ids : List String)
      (rs : List SyncRecord) : Type 0 where
    pub good : All (IsGoodRecord removals) rs
    pub fresh_ids : IsFresh ids (record_ids rs)
    pub fresh_stable_ids : IsFresh stable_ids (record_stable_ids rs)
    pub size : bytes ≤ c.max_snapshot_bytes → bytes + bytes_of rs ≤ c.max_snapshot_bytes

  pub check_records-IsChecked :
      (removals : List String) (bytes : ℕ) (ids stable_ids : List String) (rs : List SyncRecord)
      → check_records host c removals bytes ids stable_ids rs ≡ ok tt
      → IsChecked removals bytes ids stable_ids rs
  unfolding check_records
  check_records-IsChecked removals bytes ids stable_ids [] h = record {
    good = tt;
    fresh_ids = tt;
    fresh_stable_ids = tt;
    size = λ b. omega (arith, b);
  }
  check_records-IsChecked removals bytes ids stable_ids (r ∷ rs) h =
      let (g, rest) = throw_first-then (record_guards host c removals bytes ids stable_ids r) _ h in
      let more =
        check_records-IsChecked removals
          (bytes + host.byte_length (host.json (host.record_value r))) (r.record_id ∷ ids)
          (r.asset.stable_id ∷ stable_ids) rs rest in
      let (a, (b, (d, (e, (f, (u, _)))))) = g in
      let small : bytes + host.byte_length (host.json (host.record_value r))
          ≤ c.max_snapshot_bytes =
        ground (arith, a) in
      record {
        good = (
          record {
            eligible = ineligible-IsEligible r e;
            kept = d;
            hashed = (eq_iff r.payload_hash _).0 (ground (arith, f));
            safe = u;
          },
          more.good,
        );
        fresh_ids = (ground (arith, b), more.fresh_ids);
        fresh_stable_ids = (ground (arith, b), more.fresh_stable_ids);
        size = λ _. omega (arith, more.size small);
      }

-- The order does not matter to what a list includes.
includes-insert :
    (x y : String) (ys : List String)
    → includes x (insert_by (λ s. s) y ys) ≡ (y == x) || includes x ys
includes-insert x y [] = refl
includes-insert x y (z ∷ ys) = elim (Bool-cases (text_below z y)) [
  | inl later ↦ rw (later, includes-insert x y ys) (swap (z == x) (y == x) (includes x ys))
  | inr here ↦ rw here refl
]
  where
    swap : (a b e : Bool) → (a || (b || e)) ≡ (b || (a || e))
    swap a b e = ground arith

includes-sort : (x : String) (ys : List String) → includes x (sort_by (λ s. s) ys) ≡ includes x ys
includes-sort x [] = refl
includes-sort x (y ∷ ys) = rw (includes-insert x y (sort_by (λ s. s) ys), includes-sort x ys) refl

-- What the normal form of the removed ids includes, and that it has no repetitions.
pub normalize_removed-includes :
    (values normalized : List String) (x : String)
    → normalize_removed_stable_ids values ≡ ok normalized
    → includes x normalized ≡ includes x values
unfolding normalize_removed_stable_ids
normalize_removed-includes values normalized x h =
    let (_, e) =
      throw_first-then
        ((
          ltb local_sync_max_records (length values),
          "Local sync delta supports at most 5000 removals",
        )
          ∷ (any is_bad_removal values, "Local sync delta contains an invalid removed stable ID")
          ∷ (
            not (is_distinct (sort_by (λ s. s) values)),
            "Local sync delta contains duplicate removed stable IDs",
          )
          ∷ [])
        (ok (sort_by (λ s. s) values)) h in
    rw (← ok_equal e) (includes-sort x values)
