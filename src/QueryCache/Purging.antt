-- ===== src/QueryCache/Purging.antt =====
-- packages/db/src/managed-query-cache.ts: what a purge of expired entries removes, and how long an answer is kept.
use forgetbase.Prelude.{
  ap, ◌∙◌, ◌≡◌, ◌↔◌, ◌≤◌, refl, inl, inr, ℕ, String, true, false, not, Option, none, some, List, [],
  ◌∷◌, length, filter, if◌then◌else◌, leb, eq_iff, some_equal, Bool-cases, Option-cases, arith,
  lookup_key, set_key, keys, is_distinct, lookup_key-set_key, delete_keys-filter, eq_refl,
}
use forgetbase.LocalSync.Canonical.{Json}
use forgetbase.QueryCache.{
  CacheInput, CacheEntry, Cache, memory_key, hit, get_fresh, fill, next_sequence, upsert, is_of,
  is_expired_of, purge_expired,
}

-- the tenant that an operation is about
abbrev pub IsOf : Option String → CacheEntry → Type 0
IsOf none e = e.tenant_id ≡ "tenant_demo"
IsOf (some tenant) e = e.tenant_id ≡ tenant

abbrev pub IsExpiredOf : Option String → ℕ → CacheEntry → Type 0
IsExpiredOf tenant cutoff e = IsOf tenant e × (e.expires_at ≤ cutoff)

-- The entries `l` are, in order, those in `left`, of which `P` does not hold, and those in `removed`, of which it does.
pub data Parted (P : CacheEntry → Type 0)
    : List (String × CacheEntry)
      → List (String × CacheEntry)
      → List (String × CacheEntry)
      → Type 0 where
  nothing_left : Parted P [] [] []
  leave :
      {l left removed : List (String × CacheEntry)} (e : String × CacheEntry)
      → (P e.1 → ⊥)
      → Parted P l left removed
      → Parted P (e ∷ l) (e ∷ left) removed
  remove :
      {l left removed : List (String × CacheEntry)} (e : String × CacheEntry)
      → P e.1
      → Parted P l left removed
      → Parted P (e ∷ l) left (e ∷ removed)

is_of_iff : (tenant : Option String) (e : CacheEntry) → (is_of tenant e ≡ true) ↔ IsOf tenant e
is_of_iff none e = eq_iff e.tenant_id "tenant_demo"
is_of_iff (some tenant) e = eq_iff e.tenant_id tenant

filter-Parted :
    (tenant : Option String) (cutoff : ℕ) (l : List (String × CacheEntry))
    → Parted
        (IsExpiredOf tenant cutoff)
        l
        (filter (λ e. not (is_expired_of tenant cutoff e.1)) l)
        (filter (λ e. is_expired_of tenant cutoff e.1) l)
filter-Parted tenant cutoff [] = nothing_left
filter-Parted tenant cutoff (e ∷ l) = elim (Bool-cases (is_expired_of tenant cutoff e.1)) [
  | inl late ↦ rw late (
      remove e ((is_of_iff tenant e.1).0 (ground (arith, late)), ground (arith, late))
        (filter-Parted tenant cutoff l))
  | inr timely ↦ rw timely (leave e (stays timely) (filter-Parted tenant cutoff l))
]
  where
    stays : is_expired_of tenant cutoff e.1 ≡ false → IsExpiredOf tenant cutoff e.1 → ⊥
    stays timely (own, past) =
        let mine : is_of tenant e.1 ≡ true = (is_of_iff tenant e.1).1 own in
        absurd (ground (arith, timely, mine, past))

-- A purge that is not dry removes exactly the entries of the tenant that have expired by the cutoff, leaves the others in
-- their order, and reports how many it has removed; a purge that does not say whether it is dry reports the
-- same number and changes nothing. The keys of the repository are to be distinct.
pub purge_expired_exact :
    (tenant : Option String) (cutoff : ℕ) (c : Cache)
    → is_distinct (keys c.entries) ≡ true
    → ((removed : List (String × CacheEntry)) × Parted
          (IsExpiredOf tenant cutoff)
          c.entries
          (purge_expired tenant cutoff (some false) c).1.entries
          removed
        × ((purge_expired tenant cutoff (some false) c).0 ≡ length removed))
      × ((purge_expired tenant cutoff (some false) c).1.sequence ≡ c.sequence)
      × (purge_expired tenant cutoff none c ≡ ((purge_expired tenant cutoff (some false) c).0, c))
unfolding purge_expired
purge_expired_exact tenant cutoff c d =
    let left = delete_keys-filter (λ e. is_expired_of tenant cutoff e.1) c.entries d in
    (
      (
        filter (λ e. is_expired_of tenant cutoff e.1) c.entries,
        rw left (filter-Parted tenant cutoff c.entries),
        refl,
      ),
      refl,
      refl,
    )

get_fresh-set_key :
    (tenant : Option String) (key : String) (now n : ℕ) (b : CacheEntry)
    (l : List (String × CacheEntry))
    → (get_fresh tenant key now
        (record { entries = set_key (memory_key tenant key) b l; sequence = n })).0
      ≡ (if leb b.expires_at now then none else some (hit now b))
unfolding get_fresh
get_fresh-set_key tenant key now n b l =
    let k = memory_key tenant key in
    let found : lookup_key k (set_key k b l) ≡ some b =
      lookup_key-set_key k k b l ∙ rw (eq_refl k) refl in
    elim (Bool-cases (leb b.expires_at now)) [
      | inl late ↦ rw (get_fresh, found, late) refl
      | inr timely ↦ rw (get_fresh, found, timely) refl
    ]

fill-expires_at :
    (id : String) (i : CacheInput) (parsed : Json) (now : ℕ) (o : Option CacheEntry)
    → (fill id i parsed now o).expires_at ≡ i.input_expires_at
fill-expires_at id i parsed now none = refl
fill-expires_at id i parsed now (some e) = refl

module _ (id_text : ℕ → String) (parse : Json → Option Json) where
  -- An answer that is stored is what the next read of its tenant and key gives, with the hit counted, before it
  -- expires; from then on the read gives nothing.
  pub get_fresh-upsert :
      (i : CacheInput) (stored_at now : ℕ) (c : Cache) (e : CacheEntry)
      → (upsert id_text parse i stored_at c).0 ≡ some e
      → (get_fresh i.input_tenant i.input_key now (upsert id_text parse i stored_at c).1).0
        ≡ (if leb i.input_expires_at now then none else some (hit now e))
  unfolding upsert get_fresh
  get_fresh-upsert i stored_at now c e h =
      let k = memory_key i.input_tenant i.input_key in
      let before = lookup_key k c.entries in
      elim (Option-cases (parse i.generation)) [
        | inl refused ↦ absurd (impossible (rw (upsert, refused) at h))
        | inr (parsed, fine) ↦
            let b = fill (id_text (next_sequence before c.sequence)) i parsed stored_at before in
            let same_entry : b ≡ e = some_equal (rw (upsert, fine) at h) in
            rw (upsert, fine)
              (get_fresh-set_key i.input_tenant i.input_key now (next_sequence before c.sequence) b
                  c.entries
                ∙ ap (λ t. if leb t now then none else some (hit now b))
                    (fill-expires_at _ i parsed stored_at before)
                ∙ ap (λ a. if leb i.input_expires_at now then none else some (hit now a))
                    same_entry)
      ]
    where
      impossible : none ≡ some e → ⊥
      impossible h = cc
