-- ===== src/QueryCache/Views.antt =====
-- packages/db/src/managed-query-cache.ts: what one change of the entries does to the abstract cache.
use forgetbase.Prelude.{
  ap, sym, ◌∙◌, ◌≡◌, refl, inl, inr, ℕ, suc, String, Bool, true, false, not, ◌&&◌, Option, none,
  some, List, if◌then◌else◌, leb, ◌==◌, Bool-cases, lookup_key, set_key, delete_key, keys, arith,
  some_equal, is_distinct, lookup_key-set_key, is_distinct-set_key, lookup_key-filter,
  is_distinct-filter, delete_keys-filter, if-eq-some, eq_iff, eq_sym,
}
use forgetbase.LocalSync.Canonical.{Json}
use forgetbase.QueryCache.{
  CacheInput, CacheEntry, Cache, memory_key, fill, next_sequence, tenant_of, remove_entries, is_of,
  is_expired_of, is_expired, or_flag,
}
use forgetbase.QueryCache.Keys.{IsPlain, memory_key_eq}
use forgetbase.QueryCache.Abstract.{
  Spec, addressed, update, lasting, unless_dry, from, entered, Shows,
}

pub tenant_of-addressed : (tenant : Option String) → tenant_of tenant ≡ addressed tenant
tenant_of-addressed none = refl
tenant_of-addressed (some t) = refl

pub memory_key-addressed :
    (tenant : Option String) (key : String)
    → memory_key tenant key ≡ memory_key (some (addressed tenant)) key
unfolding memory_key
memory_key-addressed none key = refl
memory_key-addressed (some t) key = refl

pub fill-entered :
    (id : String) (i : CacheInput) (parsed : Json) (now : ℕ) (o : Option CacheEntry)
    → fill id i parsed now o ≡ entered id i parsed now o
fill-entered id i parsed now none = rw (tenant_of-addressed i.input_tenant) refl
fill-entered id i parsed now (some e) = rw (tenant_of-addressed i.input_tenant) refl

pub next_sequence-from :
    (o : Option CacheEntry) (n : ℕ) → next_sequence o n ≡ from (suc n) (λ _. n) o
next_sequence-from none n = refl
next_sequence-from (some e) n = refl

lookup_key-delete_key :
    (j k : String) (l : List (String × CacheEntry))
    → is_distinct (keys l) ≡ true
    → lookup_key j (delete_key k l) ≡ (if k == j then none else lookup_key j l)
lookup_key-delete_key j k l d =
    lookup_key-filter j (λ e. not (e.0 == k)) l d ∙ split (lookup_key j l)
  where
    split :
        (o : Option CacheEntry)
        → (elim o [ none ↦ none | some a ↦ if not (j == k) then some a else none ])
          ≡ (if k == j then none else o)
    split none = elim (Bool-cases (k == j)) [ inl e ↦ rw e refl | inr e ↦ rw e refl ]
    split (some a) = elim (Bool-cases (k == j)) [
      | inl e ↦ rw (eq_sym j k, e) refl
      | inr e ↦ rw (eq_sym j k, e) refl
    ]

update-own :
    (t k : String) (o : Option CacheEntry) (c : Cache) (s : Spec)
    → Shows c s
    → ((e : CacheEntry) → o ≡ some e → e.tenant_id ≡ t)
    → (u j : String) (e : CacheEntry) → IsPlain j
    → update t k o s.view u j ≡ some e
    → e.tenant_id ≡ u
update-own t k o c s h mine u j e x q = elim (Bool-cases (t == u && k == j)) [
  | inl here ↦ mine e (rw here at q) ∙ (eq_iff t u).0 (ground (arith, here))
  | inr further ↦ h.own u j e x (rw further at q)
]

pub set-Shows :
    (t k : String) (e : CacheEntry) (n : ℕ) (c : Cache) (s : Spec)
    → IsPlain k
    → e.tenant_id ≡ t
    → Shows c s
    → Shows
        (record { entries = set_key (memory_key (some t) k) e c.entries; sequence = n })
        (record { view = update t k (some e) s.view; count = n })
set-Shows t k e n c s x mine h = record {
  unique = is_distinct-set_key (memory_key (some t) k) e c.entries h.unique;
  counted = refl;
  seen = λ u j y.
      lookup_key-set_key (memory_key (some u) j) (memory_key (some t) k) e c.entries
      ∙ ap (λ b. if b then some e else lookup_key (memory_key (some u) j) c.entries)
          (memory_key_eq t u k j x y)
      ∙ ap (λ o. if t == u && k == j then some e else o) (h.seen u j y);
  own =
      update-own t k (some e) c s h
        (λ a q. ap (λ (z : CacheEntry). z.tenant_id) (sym (some_equal q)) ∙ mine);
}

pub delete-Shows :
    (t k : String) (c : Cache) (s : Spec)
    → IsPlain k
    → Shows c s
    → Shows
        (record c { entries = delete_key (memory_key (some t) k) c.entries })
        (record s { view = update t k none s.view })
delete-Shows t k c s x h = record {
  unique = is_distinct-filter (λ e. not (e.0 == memory_key (some t) k)) c.entries h.unique;
  counted = h.counted;
  seen = λ u j y.
      lookup_key-delete_key (memory_key (some u) j) (memory_key (some t) k) c.entries h.unique
      ∙ ap (λ b. if b then none else lookup_key (memory_key (some u) j) c.entries)
          (memory_key_eq t u k j x y)
      ∙ ap (λ o. if t == u && k == j then none else o) (h.seen u j y);
  own = update-own t k none c s h (λ a q. cc);
}

pub same-Shows :
    (t k : String) (c : Cache) (s : Spec)
    → Shows c s
    → s.view t k ≡ none
    → Shows c (record s { view = update t k none s.view })
same-Shows t k c s h absent = record {
  unique = h.unique;
  counted = h.counted;
  seen = λ u j y. h.seen u j y ∙ unchanged u j;
  own = update-own t k none c s h (λ a q. cc);
}
  where
    unchanged : (u j : String) → s.view u j ≡ update t k none s.view u j
    unchanged u j = elim (Bool-cases (t == u && k == j)) [
      | inr e ↦ rw e refl
      | inl e ↦
          rw (e, ← (eq_iff t u).0 (ground (arith, e)), ← (eq_iff k j).0 (ground (arith, e)), absent)
            refl
    ]

-- the entry that a removal keeps
abbrev kept : (CacheEntry → Bool) → Option CacheEntry → Option CacheEntry
kept p none = none
kept p (some a) = if not (p a) then some a else none

kept-some :
    (p : CacheEntry → Bool) (o : Option CacheEntry) (e : CacheEntry)
    → kept p o ≡ some e
    → o ≡ some e
kept-some p none e q = cc
kept-some p (some a) e q = ap some (if-eq-some (not (p a)) a q).1

remove-Shows :
    (p : CacheEntry → Bool) (v : String → String → Option CacheEntry) (c : Cache) (s : Spec)
    → ((u j : String) → IsPlain j → kept p (s.view u j) ≡ v u j)
    → Shows c s
    → Shows (remove_entries p false c) (record s { view = v })
remove-Shows p v c s fits h =
    let left = delete_keys-filter (λ e. p e.1) c.entries h.unique in
    record {
      unique = rw left (is_distinct-filter (λ e. not (p e.1)) c.entries h.unique);
      counted = h.counted;
      seen = λ u j y. rw left (
          lookup_key-filter (memory_key (some u) j) (λ e. not (p e.1)) c.entries h.unique
          ∙ rw (h.seen u j y) (by_kept (s.view u j) ∙ fits u j y));
      own = λ u j e y q. h.own u j e y (kept-some p (s.view u j) e (fits u j y ∙ q));
    }
  where
    by_kept :
        (o : Option CacheEntry)
        → (elim o [ none ↦ none | some a ↦ if not (p a) then some a else none ]) ≡ kept p o
    by_kept none = refl
    by_kept (some a) = refl

pub removal-Shows :
    (p : CacheEntry → Bool) (fallback : Bool) (dry : Option Bool)
    (v : String → String → Option CacheEntry) (c : Cache) (s : Spec)
    → ((u j : String) → IsPlain j → kept p (s.view u j) ≡ v u j)
    → Shows c s
    → Shows (remove_entries p (or_flag fallback dry) c) (unless_dry fallback dry s v)
removal-Shows p true none v c s fits h = h
removal-Shows p false none v c s fits h = remove-Shows p v c s fits h
removal-Shows p fallback (some true) v c s fits h = h
removal-Shows p fallback (some false) v c s fits h = remove-Shows p v c s fits h

pub kept-lasting :
    (cutoff : ℕ) (o : Option CacheEntry) → kept (is_expired cutoff) o ≡ lasting cutoff o
kept-lasting cutoff none = refl
kept-lasting cutoff (some e) = elim (Bool-cases (leb e.expires_at cutoff)) [
  | inl h ↦ rw h refl
  | inr h ↦ rw h refl
]

-- the tenant's own entries, tested by the tenant that an entry names
own_test :
    (tenant : Option String) (u : String) (e : CacheEntry)
    → e.tenant_id ≡ u
    → is_of tenant e ≡ (addressed tenant == u)
own_test tenant u e mine =
    ap (λ t. t == tenant_of tenant) mine
    ∙ ap (λ t. u == t) (tenant_of-addressed tenant)
    ∙ eq_sym u (addressed tenant)

pub kept-is_of :
    (tenant : Option String) (u : String) (o : Option CacheEntry)
    → ((e : CacheEntry) → o ≡ some e → e.tenant_id ≡ u)
    → kept (is_of tenant) o ≡ (if addressed tenant == u then none else o)
kept-is_of tenant u none mine = elim (Bool-cases (addressed tenant == u)) [
  | inl h ↦ rw h refl
  | inr h ↦ rw h refl
]
kept-is_of tenant u (some e) mine =
    let test = own_test tenant u e (mine e refl) in
    elim (Bool-cases (addressed tenant == u)) [
      | inl h ↦ rw (test, h) refl
      | inr h ↦ rw (test, h) refl
    ]

pub kept-is_expired_of :
    (tenant : Option String) (cutoff : ℕ) (u : String) (o : Option CacheEntry)
    → ((e : CacheEntry) → o ≡ some e → e.tenant_id ≡ u)
    → kept (is_expired_of tenant cutoff) o ≡ (if addressed tenant == u then lasting cutoff o else o)
kept-is_expired_of tenant cutoff u none mine = elim (Bool-cases (addressed tenant == u)) [
  | inl h ↦ rw h refl
  | inr h ↦ rw h refl
]
kept-is_expired_of tenant cutoff u (some e) mine =
    let test = own_test tenant u e (mine e refl) in
    elim (Bool-cases (addressed tenant == u)) [
      | inr h ↦ rw (test, h) refl
      | inl h ↦
          rw (test, h)
            (elim (Bool-cases (leb e.expires_at cutoff)) [ inl l ↦ rw l refl | inr l ↦ rw l refl ])
    ]
