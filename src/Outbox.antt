-- ===== src/Outbox.antt =====
-- packages/db/src/asset-change-outbox.ts: the in-memory outbox of asset changes.
-- The `Map` is the list of its values in insertion order; a value holds the two fields of its key.
-- `this.now()` is read where the source reads it, and the readings are arguments. `generation` is a
-- number: its decimal text, which a claim carries, determines it.
pub mod Leases
pub mod Fencing
pub mod Bounds
pub mod Retry
pub mod Exclusive
pub mod Report
mod Tests
use Prim.Native.Nat.{compare, Ordering}
use forgetbase.Prelude.{
  ℕ, suc, ◌+◌, ◌-◌, ◌*◌, ◌^◌, String, Bool, true, false, ◌&&◌, ◌||◌, not, Option, none, some, List,
  [], ◌∷◌, ◌++◌, map, min, max, ltb, leb, nat_eq, opt_eq, if◌then◌else◌, take, filter, any, length,
  ◌==◌,
}

pub data WorkState : Type 0 where
  pending processing failed : WorkState

pub data ErrorCode : Type 0 where
  asset_lookup_failed asset_index_failed : ErrorCode
  asset_cache_invalidation_failed asset_reconciliation_failed : ErrorCode

-- `MemoryWork`
pub record Work : Type 0 where
  pub tenant_id : String
  pub asset_id : String
  pub stable_id : String
  pub generation : ℕ
  pub state : WorkState
  pub attempts : ℕ
  pub available_at : ℕ
  pub queued_at : ℕ
  pub lease_token : Option String
  pub lease_expires_at : Option ℕ
  pub last_error_code : Option ErrorCode

-- `AssetChangeWork`, what a claim hands to a worker
pub record Claim : Type 0 where
  pub tenant_id : String
  pub asset_id : String
  pub stable_id : String
  pub generation : ℕ
  pub lease_token : String
  pub attempts : ℕ

pub record Change : Type 0 where
  pub tenant_id : String
  pub asset_id : String
  pub stable_id : String

-- A JavaScript number, as `Number.isSafeInteger` tells them apart: `other` is a fraction, an
-- infinity or NaN.
pub data Number : Type 0 where
  whole minus : ℕ → Number
  other : Number

pub record ClaimOptions : Type 0 where
  pub tenant_id : Option String
  pub asset_id : Option String
  pub limit : Option Number
  pub lease_duration_ms : Option Number

pub record ClaimBounds : Type 0 where
  pub limit : ℕ
  pub lease_duration_ms : ℕ

-- `uuids` counts the calls of `randomUUID` so far.
pub record Repo : Type 0 where
  pub work : List Work
  pub uuids : ℕ

-- What the host gives: `JSON.stringify([a, b])`, `a.localeCompare(b) <= 0` and the results of the
-- successive calls of `randomUUID`.
pub record Host : Type 0 where
  pub stringify : String → String → String
  pub locale_le : String → String → Bool
  pub random_uuid : ℕ → String

abbrev pub max_safe_integer : ℕ
max_safe_integer = 2 ^ 53 - 1

-- `boundedInteger`; a negative safe integer is below every minimum that the source passes.
unfoldable pub bounded_integer : Option Number → ℕ → ℕ → ℕ → ℕ
bounded_integer none fallback lo hi = fallback
bounded_integer (some (whole n)) fallback lo hi =
    if leb n max_safe_integer then min (max n lo) hi else fallback
bounded_integer (some (minus n)) fallback lo hi =
    if leb n max_safe_integer then min lo hi else fallback
bounded_integer (some other) fallback lo hi = fallback

unfoldable pub claim_bounds : ClaimOptions → ClaimBounds
claim_bounds o = record {
  limit = bounded_integer o.limit 25 1 100;
  lease_duration_ms = bounded_integer o.lease_duration_ms 60000 1 300000;
}

unfoldable pub retry_delay_ms : ℕ → ℕ
retry_delay_ms attempts = if leb 8 attempts then 300000 else 1000 * 2 ^ (attempts - 1)

abbrev pub is_processing : WorkState → Bool
is_processing processing = true
is_processing _ = false

abbrev pub is_pending : WorkState → Bool
is_pending pending = true
is_pending _ = false

abbrev pub is_failed : WorkState → Bool
is_failed failed = true
is_failed _ = false

-- `value ?? 0`
abbrev pub or_zero : Option ℕ → ℕ
or_zero none = 0
or_zero (some n) = n

-- `wanted === undefined || actual === wanted`
abbrev pub wanted_is : Option String → String → Bool
wanted_is none actual = true
wanted_is (some wanted) actual = actual == wanted

-- the filter of `claim`
unfoldable pub eligible : ClaimOptions → ℕ → Work → Bool
eligible o now w =
    wanted_is o.tenant_id w.tenant_id
    && wanted_is o.asset_id w.asset_id
    && leb w.available_at now
    && (not (is_processing w.state) || leb (or_zero w.lease_expires_at) now)

-- the value that `recordChange` stores: its generation, its time and the time of its queueing
abbrev pub changed : Change → ℕ → ℕ → ℕ → Work
changed c generation now queued_at = record {
  tenant_id = c.tenant_id;
  asset_id = c.asset_id;
  stable_id = c.stable_id;
  generation = generation;
  state = pending;
  attempts = 0;
  available_at = now;
  queued_at = queued_at;
  lease_token = none;
  lease_expires_at = none;
  last_error_code = none;
}

abbrev pub lease : ℕ → ℕ → String → Work → Work
lease now duration token w = record w {
  state = processing;
  attempts = min (w.attempts + 1) 8;
  lease_token = some token;
  lease_expires_at = some (now + duration);
}

abbrev pub claim_of : String → Work → Claim
claim_of token w = record {
  tenant_id = w.tenant_id;
  asset_id = w.asset_id;
  stable_id = w.stable_id;
  generation = w.generation;
  lease_token = token;
  attempts = w.attempts;
}

abbrev pub holds_lease : ℕ → Claim → Work → Bool
holds_lease now c w =
    is_processing w.state
    && nat_eq w.generation c.generation
    && opt_eq w.lease_token (some c.lease_token)
    && ltb now (or_zero w.lease_expires_at)

abbrev pub release : ErrorCode → ℕ → Work → Work
release code later w = record w {
  state = if leb 8 w.attempts then failed else pending;
  available_at = later + retry_delay_ms w.attempts;
  lease_token = none;
  lease_expires_at = none;
  last_error_code = some code;
}

module _ (h : Host) where
  abbrev pub work_key : Work → String
  work_key w = h.stringify w.tenant_id w.asset_id

  abbrev pub claim_key : Claim → String
  claim_key c = h.stringify c.tenant_id c.asset_id

  abbrev pub change_key : Change → String
  change_key c = h.stringify c.tenant_id c.asset_id

  -- `this.work.get(key)`
  unfoldable pub get : String → List Work → Option Work
  get key [] = none
  get key (w ∷ ws) = if work_key w == key then some w else get key ws

  -- what a mutation of the object at a key, or `this.work.set` at a key that is there, leaves
  unfoldable pub put : Work → List Work → List Work
  put w [] = []
  put w (v ∷ vs) = (if work_key v == work_key w then w else v) ∷ put w vs

  -- `this.work.delete(key)`
  unfoldable pub remove : String → List Work → List Work
  remove key ws = filter (λ w. not (work_key w == key)) ws

  -- the comparator of `claim`: the left one does not come after the right one
  unfoldable pub not_after : Work → Work → Bool
  not_after a b = elim (compare a.available_at b.available_at) [
    | Ordering.lt ↦ true
    | Ordering.gt ↦ false
    | Ordering.eq ↦ elim (compare a.queued_at b.queued_at) [
      | Ordering.lt ↦ true
      | Ordering.gt ↦ false
      | Ordering.eq ↦ h.locale_le (work_key a) (work_key b)
    ]
  ]

  unfoldable pub insert_work : Work → List Work → List Work
  insert_work w [] = w ∷ []
  insert_work w (v ∷ vs) = if not_after w v then w ∷ v ∷ vs else v ∷ insert_work w vs

  -- `Array.prototype.sort`, which is stable
  unfoldable pub sort_work : List Work → List Work
  sort_work [] = []
  sort_work (w ∷ ws) = insert_work w (sort_work ws)

  unfoldable pub record_change : Change → ℕ → Repo → Repo
  record_change c now r = elim (get (change_key c) r.work) [
    | none ↦ record r { work = r.work ++ changed c 1 now now ∷ [] }
    | some previous ↦ record r {
      work = put (changed c (previous.generation + 1) now previous.queued_at) r.work;
    }
  ]

  -- the last `map` of `claim`: the works in the `Map` are the objects that it changes
  unfoldable pub lease_all : ℕ → ℕ → List Work → Repo → List Claim × Repo
  lease_all now duration [] r = ([], r)
  lease_all now duration (w ∷ ws) r =
      let token = h.random_uuid r.uuids in
      let leased = lease now duration token w in
      let (claims, r') =
        lease_all now duration ws (record { work = put leased r.work; uuids = suc r.uuids }) in
      (claim_of token leased ∷ claims, r')

  abbrev pub chosen : ClaimOptions → ℕ → Repo → List Work
  chosen o now r = take (claim_bounds o).limit (sort_work (filter (eligible o now) r.work))

  unfoldable pub claim : ClaimOptions → ℕ → Repo → List Claim × Repo
  claim o now r = lease_all now (claim_bounds o).lease_duration_ms (chosen o now r) r

  unfoldable pub leased_work : Claim → ℕ → Repo → Option Work
  leased_work c now r = elim (get (claim_key c) r.work) [
    | none ↦ none
    | some w ↦ if holds_lease now c w then some w else none
  ]

  unfoldable pub complete : Claim → ℕ → Repo → Bool × Repo
  complete c now r = elim (leased_work c now r) [
    | none ↦ (false, r)
    | some w ↦ (true, record r { work = remove (claim_key c) r.work })
  ]

  -- `now` is the reading of `leasedWork`, `later` that of the new `availableAt`. An error code has
  -- the declared type, so `safeErrorCode` returns it.
  unfoldable pub fail : Claim → ErrorCode → ℕ → ℕ → Repo → Bool × Repo
  fail c code now later r = elim (leased_work c now r) [
    | none ↦ (false, r)
    | some w ↦ (true, record r { work = put (release code later w) r.work })
  ]

pub record Health : Type 0 where
  pub pending : ℕ
  pub processing : ℕ
  pub failed : ℕ
  pub oldest_pending_at : Option ℕ
  pub oldest_pending_age_ms : Option ℕ

abbrev pub oldest : List Work → Option ℕ
oldest [] = none
oldest (w ∷ ws) = elim (oldest ws) [ none ↦ some w.queued_at | some t ↦ some (min w.queued_at t) ]

abbrev pub age : ℕ → Option ℕ → Option ℕ
age now none = none
age now (some t) = some (now - t)

unfoldable pub get_health : Option String → ℕ → Repo → Health
get_health tenant now r =
    let items = filter (λ w. wanted_is tenant w.tenant_id) r.work in
    record {
      pending = length (filter (λ w. is_pending w.state) items);
      processing = length (filter (λ w. is_processing w.state) items);
      failed = length (filter (λ w. is_failed w.state) items);
      oldest_pending_at = oldest items;
      oldest_pending_age_ms = age now (oldest items);
    }
