-- ===== src/QueryCache.antt =====
-- packages/db/src/managed-query-cache.ts, the in-memory repository of the answers that managed queries cache.
-- Times are numbers of milliseconds. The check of a generation by its schema and the ids that are made from
-- the sequence of the entries are arguments; the enumerations of providers and surfaces are texts.
pub mod Keys
pub mod Abstract
pub mod Views
pub mod Refines
pub mod Purging
mod Tests
use forgetbase.Prelude.{
  ℕ, suc, ◌+◌, String, Bool, true, false, not, ◌&&◌, Option, none, some, List, [], ◌∷◌, map, length,
  filter, if◌then◌else◌, leb, ◌==◌, text, lookup_key, set_key, delete_key, delete_keys, keys,
}
use forgetbase.LocalSync.Canonical.{Json, Fields, no_fields}

-- `ManagedQueryCacheUpsertInput`
pub record CacheInput : Type 0 where
  pub input_tenant : Option String
  pub input_key : String
  pub provider : String
  pub model : String
  pub mode : String
  pub query_hash : String
  pub surface : String
  pub principal_hash : String
  pub context_hash : String
  pub answer : String
  pub generation : Json
  pub metadata : Option Fields
  pub input_expires_at : ℕ

-- `ManagedQueryCacheEntry`; what the input says stands in `content`, with the parsed generation
pub record CacheEntry : Type 0 where
  pub entry_id : String
  pub tenant_id : String
  pub cache_key : String
  pub content : CacheInput
  pub parsed_generation : Json
  pub entry_metadata : Fields
  pub expires_at : ℕ
  pub created_at : ℕ
  pub updated_at : ℕ
  pub last_hit_at : Option ℕ
  pub hit_count : ℕ

pub record Cache : Type 0 where
  pub entries : List (String × CacheEntry)
  pub sequence : ℕ

abbrev pub tenant_of : Option String → String
tenant_of none = "tenant_demo"
tenant_of (some tenant) = tenant

-- `buildMemoryKey`
unfoldable pub memory_key : Option String → String → String
memory_key tenant key = text (tenant_of tenant) ":" key

abbrev pub hit : ℕ → CacheEntry → CacheEntry
hit now e = record e { updated_at = now; last_hit_at = some now; hit_count = e.hit_count + 1 }

unfoldable pub get_fresh : Option String → String → ℕ → Cache → Option CacheEntry × Cache
unfolding memory_key
get_fresh tenant key now c = elim (lookup_key (memory_key tenant key) c.entries) [
  | none ↦ (none, c)
  | some e ↦
      if leb e.expires_at now
      then (none, record c { entries = delete_key (memory_key tenant key) c.entries })
      else (
        some (hit now e),
        record c { entries = set_key (memory_key tenant key) (hit now e) c.entries },
      )
]

-- the entry that `upsert` stores
abbrev pub fill : String → CacheInput → Json → ℕ → Option CacheEntry → CacheEntry
fill id i parsed now none = record {
  entry_id = id;
  tenant_id = tenant_of i.input_tenant;
  cache_key = i.input_key;
  content = i;
  parsed_generation = parsed;
  entry_metadata = elim i.metadata [ none ↦ no_fields | some m ↦ m ];
  expires_at = i.input_expires_at;
  created_at = now;
  updated_at = now;
  last_hit_at = none;
  hit_count = 0;
}
fill id i parsed now (some e) = record {
  entry_id = e.entry_id;
  tenant_id = tenant_of i.input_tenant;
  cache_key = i.input_key;
  content = i;
  parsed_generation = parsed;
  entry_metadata = elim i.metadata [ none ↦ no_fields | some m ↦ m ];
  expires_at = i.input_expires_at;
  created_at = e.created_at;
  updated_at = now;
  last_hit_at = e.last_hit_at;
  hit_count = e.hit_count;
}

abbrev pub next_sequence : Option CacheEntry → ℕ → ℕ
next_sequence none n = suc n
next_sequence (some e) n = n

-- `upsert`; no entry means that the schema refuses the generation, when the sequence has moved on
unfoldable pub upsert :
    (ℕ → String) → (Json → Option Json) → CacheInput → ℕ → Cache → Option CacheEntry × Cache
unfolding memory_key
upsert id_text parse i now c =
    let key = memory_key i.input_tenant i.input_key in
    let existing = lookup_key key c.entries in
    let n = next_sequence existing c.sequence in
    elim (parse i.generation) [
      | none ↦ (none, record c { sequence = n })
      | some parsed ↦
          let e = fill (id_text n) i parsed now existing in
          (some e, record { entries = set_key key e c.entries; sequence = n })
    ]

unfoldable pub delete_entry : Option String → String → Cache → Option CacheEntry × Cache
unfolding memory_key
delete_entry tenant key c = elim (lookup_key (memory_key tenant key) c.entries) [
  | none ↦ (none, c)
  | some e ↦ (some e, record c { entries = delete_key (memory_key tenant key) c.entries })
]

-- the loop that `invalidateTenant`, `purgeExpired` and `purgeExpiredForAllTenants` share: the entries that a test
-- selects, and the repository without them unless the run is dry
abbrev pub selected_entries : (CacheEntry → Bool) → Cache → List (String × CacheEntry)
selected_entries p c = filter (λ e. p e.1) c.entries

abbrev pub remove_entries : (CacheEntry → Bool) → Bool → Cache → Cache
remove_entries p dry c =
    if dry then c else record c { entries = delete_keys (keys (selected_entries p c)) c.entries }

abbrev pub is_of : Option String → CacheEntry → Bool
is_of tenant e = e.tenant_id == tenant_of tenant

abbrev pub is_expired_of : Option String → ℕ → CacheEntry → Bool
is_expired_of tenant cutoff e = is_of tenant e && leb e.expires_at cutoff

abbrev pub or_flag : Bool → Option Bool → Bool
or_flag fallback none = fallback
or_flag fallback (some b) = b

unfoldable pub invalidate_tenant : Option String → Option Bool → Cache → ℕ × Cache
invalidate_tenant tenant dry c = (
  length (selected_entries (is_of tenant) c),
  remove_entries (is_of tenant) (or_flag false dry) c,
)

unfoldable pub purge_expired : Option String → ℕ → Option Bool → Cache → ℕ × Cache
purge_expired tenant cutoff dry c = (
  length (selected_entries (is_expired_of tenant cutoff) c),
  remove_entries (is_expired_of tenant cutoff) (or_flag true dry) c,
)

-- `summarizeTenantPurgeRows`: how often each tenant stands in a list, in the order of `localeCompare`
abbrev pub count_tenants : List String → List (String × ℕ) → List (String × ℕ)
count_tenants [] counts = counts
count_tenants (t ∷ ts) counts =
    count_tenants ts (set_key t ((elim (lookup_key t counts) [ none ↦ 0 | some n ↦ n ]) + 1) counts)

abbrev pub is_expired : ℕ → CacheEntry → Bool
is_expired cutoff e = leb e.expires_at cutoff

module _ (locale_le : String → String → Bool) where
  abbrev pub insert_count : String × ℕ → List (String × ℕ) → List (String × ℕ)
  insert_count e [] = e ∷ []
  insert_count e (f ∷ fs) = if locale_le e.0 f.0 then e ∷ f ∷ fs else f ∷ insert_count e fs

  abbrev pub sort_counts : List (String × ℕ) → List (String × ℕ)
  sort_counts [] = []
  sort_counts (e ∷ es) = insert_count e (sort_counts es)

  -- `purgeExpiredForAllTenants`
  unfoldable pub purge_all : ℕ → Option Bool → Cache → List (String × ℕ) × Cache
  purge_all cutoff dry c = (
    sort_counts
        (count_tenants (map (λ e. e.1.tenant_id) (selected_entries (is_expired cutoff) c)) []),
    remove_entries (is_expired cutoff) (or_flag true dry) c,
  )
