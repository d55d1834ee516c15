-- ===== src/QueryCache/Refines.antt =====
-- packages/db/src/managed-query-cache.ts: the in-memory repository against the abstract cache.
use forgetbase.Prelude.{
  sym, ◌∙◌, ◌≡◌, refl, inl, inr, ℕ, suc, String, Bool, true, false, Option, none, some, leb,
  Bool-cases, Option-cases, lookup_key,
}
use forgetbase.LocalSync.Canonical.{Json}
use forgetbase.QueryCache.{
  CacheInput, Cache, memory_key, get_fresh, upsert, delete_entry, is_of, is_expired_of, is_expired,
  invalidate_tenant, purge_expired, purge_all,
}
use forgetbase.QueryCache.Keys.{IsPlain}
use forgetbase.QueryCache.Abstract.{
  Op, reads, stores, deletes, invalidates, purges, purges_all, Spec, IsPlainOp, addressed, touched,
  from, entered, Shows, run, specified,
}
use forgetbase.QueryCache.Views.{
  tenant_of-addressed, fill-entered, next_sequence-from, set-Shows, delete-Shows, same-Shows,
  removal-Shows, kept-lasting, kept-is_of, kept-is_expired_of,
}

module _ (id_text : ℕ → String) (parse : Json → Option Json)
    (locale_le : String → String → Bool) where
  -- the operation gives what the abstract one gives, and leaves what it leaves
  abbrev Agrees : Op → Cache → Spec → Type 0
  Agrees o c s =
      ((run id_text parse locale_le o c).0 ≡ (specified id_text parse locale_le o s).0)
      × Shows (run id_text parse locale_le o c).1 (specified id_text parse locale_le o s).1

  get-Shows :
      (tenant : Option String) (key : String) (now : ℕ) (c : Cache) (s : Spec)
      → IsPlain key
      → Shows c s
      → Agrees (reads tenant key now) c s
  unfolding get_fresh
  get-Shows tenant key now c s x h =
      let t = addressed tenant in
      let k = memory_key (some t) key in
      elim (Option-cases (lookup_key k c.entries)) [
        | inl absent ↦
            let unseen : s.view t key ≡ none = sym (h.seen t key x) ∙ absent in
            rw (get_fresh, tenant_of-addressed tenant, absent, unseen)
              (refl, same-Shows t key c s h unseen)
        | inr (e, found) ↦
            let shown : s.view t key ≡ some e = sym (h.seen t key x) ∙ found in
            elim (Bool-cases (leb e.expires_at now)) [
              | inl late ↦
                  rw (get_fresh, tenant_of-addressed tenant, found, shown, late)
                    (refl, delete-Shows t key c s x h)
              | inr timely ↦
                  rw (get_fresh, tenant_of-addressed tenant, found, shown, timely, ← h.counted)
                    (
                      refl,
                      set-Shows t key (touched now e) c.sequence c s x (h.own t key e x shown) h,
                    )
            ]
      ]

  store-Shows :
      (i : CacheInput) (now : ℕ) (c : Cache) (s : Spec)
      → IsPlain i.input_key
      → Shows c s
      → Agrees (stores i now) c s
  unfolding upsert
  store-Shows i now c s x h =
      let t = addressed i.input_tenant in
      let before = s.view t i.input_key in
      let n = from (suc s.count) (λ _. s.count) before in
      let same_key = tenant_of-addressed i.input_tenant in
      let seen = h.seen t i.input_key x in
      let same_count = next_sequence-from before s.count in
      elim (Option-cases (parse i.generation)) [
        | inl refused ↦
            rw (upsert, specified, refused, same_key, seen, h.counted, same_count)
              (refl, record { unique = h.unique; counted = refl; seen = h.seen; own = h.own })
        | inr (parsed, fine) ↦
            rw
              (
                upsert,
                specified,
                fine,
                same_key,
                seen,
                h.counted,
                same_count,
                fill-entered (id_text n) i parsed now before,
              )
              (
                refl,
                set-Shows t i.input_key (entered (id_text n) i parsed now before) n c s x refl h,
              )
      ]

  delete_entry-Shows :
      (tenant : Option String) (key : String) (c : Cache) (s : Spec)
      → IsPlain key
      → Shows c s
      → Agrees (deletes tenant key) c s
  unfolding delete_entry
  delete_entry-Shows tenant key c s x h =
      let t = addressed tenant in
      let k = memory_key (some t) key in
      elim (Option-cases (lookup_key k c.entries)) [
        | inl absent ↦
            let unseen : s.view t key ≡ none = sym (h.seen t key x) ∙ absent in
            rw (delete_entry, tenant_of-addressed tenant, absent, unseen)
              (refl, same-Shows t key c s h unseen)
        | inr (e, found) ↦
            let shown : s.view t key ≡ some e = sym (h.seen t key x) ∙ found in
            rw (delete_entry, tenant_of-addressed tenant, found, shown)
              (refl, delete-Shows t key c s x h)
      ]

  -- Every operation that changes the repository, on keys without a colon, does what the abstract cache does: a read, a
  -- store and a deletion give the same entry, and each operation leaves a repository that has for each tenant under each key
  -- without a colon what the abstract cache has, with distinct keys in memory and as many entries added.
  -- The abstract cache is a function from tenants and keys, on which a removal of many entries is one test,
  -- and a read drops an entry that has expired. What the removals of many entries count is not part of it.
  pub run-Shows :
      (o : Op) (c : Cache) (s : Spec)
      → IsPlainOp o
      → Shows c s
      → ((run id_text parse locale_le o c).0 ≡ (specified id_text parse locale_le o s).0)
        × Shows (run id_text parse locale_le o c).1 (specified id_text parse locale_le o s).1
  unfolding invalidate_tenant purge_expired purge_all
  run-Shows (reads tenant key now) c s x h = get-Shows tenant key now c s x h
  run-Shows (stores i now) c s x h = store-Shows i now c s x h
  run-Shows (deletes tenant key) c s x h = delete_entry-Shows tenant key c s x h
  run-Shows (invalidates tenant dry) c s x h = (
    refl,
    removal-Shows (is_of tenant) false dry _ c s
        (λ u j y. kept-is_of tenant u (s.view u j) (λ e q. h.own u j e y q)) h,
  )
  run-Shows (purges tenant cutoff dry) c s x h = (
    refl,
    removal-Shows (is_expired_of tenant cutoff) true dry _ c s
        (λ u j y. kept-is_expired_of tenant cutoff u (s.view u j) (λ e q. h.own u j e y q)) h,
  )
  run-Shows (purges_all cutoff dry) c s x h = (
    refl,
    removal-Shows (is_expired cutoff) true dry _ c s (λ u j y. kept-lasting cutoff (s.view u j)) h,
  )
