-- ===== src/QueryCache/Abstract.antt =====
-- packages/db/src/managed-query-cache.ts: an abstract cache, which is a function from tenants and keys,
-- with the operations that change the cache.
use forgetbase.Prelude.{
  ◌≡◌, ℕ, suc, ◌+◌, String, Bool, true, false, ◌&&◌, Option, none, some, if◌then◌else◌, leb, ◌==◌,
  lookup_key, keys, is_distinct,
}
use forgetbase.LocalSync.Canonical.{Json, no_fields}
use forgetbase.QueryCache.{
  CacheInput, CacheEntry, Cache, memory_key, get_fresh, upsert, delete_entry, invalidate_tenant,
  purge_expired, purge_all,
}
use forgetbase.QueryCache.Keys.{IsPlain}

-- the operations that change the cache
pub data Op : Type 0 where
  reads : (tenant : Option String) (key : String) (now : ℕ) → Op
  stores : (i : CacheInput) (now : ℕ) → Op
  deletes : (tenant : Option String) (key : String) → Op
  invalidates : (tenant : Option String) (dry : Option Bool) → Op
  purges : (tenant : Option String) (cutoff : ℕ) (dry : Option Bool) → Op
  purges_all : (cutoff : ℕ) (dry : Option Bool) → Op

-- an abstract cache: what it has for each tenant under each key, and how many entries were added
pub record Spec : Type 0 where
  pub view : String → String → Option CacheEntry
  pub count : ℕ

-- The keys that the operation names have no colon.
abbrev pub IsPlainOp : Op → Type 0
IsPlainOp (reads tenant key now) = IsPlain key
IsPlainOp (stores i now) = IsPlain i.input_key
IsPlainOp (deletes tenant key) = IsPlain key
IsPlainOp _ = Unit

abbrev pub addressed : Option String → String
addressed none = "tenant_demo"
addressed (some tenant) = tenant

abbrev pub update :
    String
    → String
    → Option CacheEntry
    → (String → String → Option CacheEntry)
    → String
    → String
    → Option CacheEntry
update t k o v u j = if t == u && k == j then o else v u j

abbrev pub touched : ℕ → CacheEntry → CacheEntry
touched now e = record e { updated_at = now; last_hit_at = some now; hit_count = e.hit_count + 1 }

abbrev pub live : ℕ → Option CacheEntry → Option CacheEntry
live now none = none
live now (some e) = if leb e.expires_at now then none else some (touched now e)

-- what is left of an entry when those that have expired by a time are removed
abbrev pub lasting : ℕ → Option CacheEntry → Option CacheEntry
lasting cutoff none = none
lasting cutoff (some e) = if leb e.expires_at cutoff then none else some e

abbrev pub unless_dry : Bool → Option Bool → Spec → (String → String → Option CacheEntry) → Spec
unless_dry fallback none s v = if fallback then s else record s { view = v }
unless_dry fallback (some dry) s v = if dry then s else record s { view = v }

abbrev pub from {ℓ} : {A : Type ℓ} → A → (CacheEntry → A) → Option CacheEntry → A
from new old none = new
from new old (some e) = old e

-- what is stored: the input, with what an entry that was there has counted
abbrev pub entered : String → CacheInput → Json → ℕ → Option CacheEntry → CacheEntry
entered id i parsed now before = record {
  entry_id = from id (λ e. e.entry_id) before;
  tenant_id = addressed i.input_tenant;
  cache_key = i.input_key;
  content = i;
  parsed_generation = parsed;
  entry_metadata = elim i.metadata [ none ↦ no_fields | some m ↦ m ];
  expires_at = i.input_expires_at;
  created_at = from now (λ e. e.created_at) before;
  updated_at = now;
  last_hit_at = from none (λ e. e.last_hit_at) before;
  hit_count = from 0 (λ e. e.hit_count) before;
}

-- A cache implements an abstract one, at the keys without a colon.
pub record Shows (c : Cache) (s : Spec) : Type 0 where
  pub unique : is_distinct (keys c.entries) ≡ true
  pub counted : c.sequence ≡ s.count
  pub seen : (t k : String) → IsPlain k → lookup_key (memory_key (some t) k) c.entries ≡ s.view t k
  pub own : (t k : String) (e : CacheEntry) → IsPlain k → s.view t k ≡ some e → e.tenant_id ≡ t

module _ (id_text : ℕ → String) (parse : Json → Option Json)
    (locale_le : String → String → Bool) where
  abbrev pub run : Op → Cache → Option CacheEntry × Cache
  run (reads tenant key now) c = get_fresh tenant key now c
  run (stores i now) c = upsert id_text parse i now c
  run (deletes tenant key) c = delete_entry tenant key c
  run (invalidates tenant dry) c = (none, (invalidate_tenant tenant dry c).1)
  run (purges tenant cutoff dry) c = (none, (purge_expired tenant cutoff dry c).1)
  run (purges_all cutoff dry) c = (none, (purge_all locale_le cutoff dry c).1)

  abbrev pub specified : Op → Spec → Option CacheEntry × Spec
  specified (reads tenant key now) s =
      let t = addressed tenant in
      (live now (s.view t key), record s { view = update t key (live now (s.view t key)) s.view })
  specified (stores i now) s =
      let t = addressed i.input_tenant in
      let n = from (suc s.count) (λ _. s.count) (s.view t i.input_key) in
      elim (parse i.generation) [
        | none ↦ (none, record s { count = n })
        | some parsed ↦
            let o = some (entered (id_text n) i parsed now (s.view t i.input_key)) in
            (o, record { view = update t i.input_key o s.view; count = n })
      ]
  specified (deletes tenant key) s =
      let t = addressed tenant in (s.view t key, record s { view = update t key none s.view })
  specified (invalidates tenant dry) s =
      (none, unless_dry false dry s (λ u j. if addressed tenant == u then none else s.view u j))
  specified (purges tenant cutoff dry) s = (
    none,
    unless_dry true dry s
        (λ u j. if addressed tenant == u then lasting cutoff (s.view u j) else s.view u j),
  )
  specified (purges_all cutoff dry) s =
      (none, unless_dry true dry s (λ u j. lasting cutoff (s.view u j)))
