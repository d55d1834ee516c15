-- ===== src/QueryCache/Tests.antt =====
-- Runs of the cache, and its theorems at concrete inputs.
use forgetbase.Prelude.{
  true, Bool, ◌∷◌, [], List, length, ℕ, String, ◌≡◌, refl, false, Option, none, some, [], length,
}
use forgetbase.LocalSync.Canonical.{Json, quoted}
use forgetbase.QueryCache.{
  CacheInput, CacheEntry, Cache, memory_key, hit, get_fresh, fill, upsert, delete_entry,
  invalidate_tenant, purge_expired, purge_all,
}
use forgetbase.QueryCache.Refines.{run-Shows}
use forgetbase.QueryCache.Abstract.{Shows, Spec, run, specified, stores}
use forgetbase.QueryCache.Purging.{IsExpiredOf, Parted, purge_expired_exact, get_fresh-upsert}

abbrev id_text : ℕ → String
id_text n = "managed_query_cache_n"

abbrev parse : Json → Option Json
parse j = some j

abbrev input : String → ℕ → CacheInput
input key time = record {
  input_tenant = some "t";
  input_key = key;
  provider = "openai";
  model = "m";
  mode = "provider-routed";
  query_hash = "q";
  surface = "web";
  principal_hash = "p";
  context_hash = "c";
  answer = "Yes";
  generation = quoted "g";
  metadata = none;
  input_expires_at = time;
}

abbrev empty_cache : Cache
empty_cache = record { entries = []; sequence = 0 }

abbrev nothing : Spec
nothing = record { view = λ t k. none; count = 0 }

abbrev cached : Cache
cached =
    (upsert id_text parse (input "b" 90) 20
      (upsert id_text parse (input "a" 50) 10 empty_cache).1).1

abbrev stored_entry : CacheEntry
stored_entry = fill (id_text 1) (input "a" 50) (quoted "g") 10 none

abbrev locale_le : String → String → Bool
locale_le a b = true

opened : Unit {0}
unfolding memory_key get_fresh upsert delete_entry invalidate_tenant purge_expired purge_all
opened = tt

-- An entry that has expired is not read, and is gone.
late_read : get_fresh (some "t") "a" 50 cached ≡ (none, (delete_entry (some "t") "a" cached).1)
unfolding opened
late_read = refl

-- Only the tenant's entries are invalidated.
other_tenant : invalidate_tenant (some "u") none cached ≡ (0, cached)
unfolding opened
other_tenant = refl

run-Shows_example :
    ((run id_text parse locale_le (stores (input "a" 50) 10) empty_cache).0
      ≡ (specified id_text parse locale_le (stores (input "a" 50) 10) nothing).0)
    × Shows
        (run id_text parse locale_le (stores (input "a" 50) 10) empty_cache).1
        (specified id_text parse locale_le (stores (input "a" 50) 10) nothing).1
run-Shows_example =
    run-Shows id_text parse locale_le (stores (input "a" 50) 10) empty_cache nothing refl
      (record { unique = refl; counted = refl; seen = λ t k x. refl; own = λ t k e x q. cc })

-- The counts of a purge of all tenants stand in the order of the tenants.
purge_all_run :
    (purge_all locale_le 60 (some false) (invalidate_tenant (some "u") none cached).1).0
    ≡ ("t", 1) ∷ []
unfolding opened
purge_all_run = refl

purge_expired_exact_example :
    ((removed : List (String × CacheEntry)) × Parted
        (IsExpiredOf (some "t") 60)
        cached.entries
        (purge_expired (some "t") 60 (some false) cached).1.entries
        removed
      × ((purge_expired (some "t") 60 (some false) cached).0 ≡ length removed))
    × ((purge_expired (some "t") 60 (some false) cached).1.sequence ≡ cached.sequence)
    × (purge_expired (some "t") 60 none cached
        ≡ ((purge_expired (some "t") 60 (some false) cached).0, cached))
unfolding opened
purge_expired_exact_example = purge_expired_exact (some "t") 60 cached refl

get_fresh-upsert_example :
    (get_fresh (some "t") "a" 40 (upsert id_text parse (input "a" 50) 10 empty_cache).1).0
    ≡ some (hit 40 stored_entry)
unfolding opened
get_fresh-upsert_example =
    get_fresh-upsert id_text parse (input "a" 50) 10 40 empty_cache stored_entry refl
