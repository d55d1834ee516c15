-- ===== src/Updater/Env.antt =====
-- What the updater's manager runs in: the executor and the other services that it is given, the store's
-- input and output, and the effects of its asynchronous methods as a state monad with errors.
-- The executor of packages/updater/src/executor.ts (Docker, files) is the record's functions on a
-- world `W` that the model knows nothing of: each may fail, at any call.
pub mod Triples
use forgetbase.Prelude.{
  ℕ, String, Bool, true, false, ◌≡◌, refl, Option, none, some, List, [], ◌∷◌, ◌++◌, Result, ok, err,
  if◌then◌else◌,
}
use forgetbase.Updater.Types.{
  Manifest, Envelope, Identity, RecoveryPoint, Descriptor, Ledger, Vault,
}
use forgetbase.Updater.Schema.{Formats, point_ok}
use forgetbase.Updater.Store.{bounded}

-- SHA-256 of the canonical JSON of each kind of value (`approvalDigest`), and the length of the JSON
-- text of a descriptor.
pub record Digests : Type 0 where
  pub identity_digest : Identity → String
  pub release_digest : Manifest → String
  pub point_digest : RecoveryPoint → String
  pub descriptor_digest : Descriptor → String
  pub descriptor_bytes : Descriptor → ℕ

-- A read or a replacement of the ledger's file: it succeeds, it fails and leaves the file, or it
-- fails after the file has been replaced.
pub data Outcome : Type 0 where
  fine : Outcome
  before after : String → Outcome

-- `UpdateSystemProbe`, less the texts of its details
pub record Probe : Type 0 where
  pub healthy : Bool
  pub docker_available : Bool
  pub compose_available : Bool
  pub configuration_valid : Bool
  pub configuration_drift : Bool
  pub backup_writable : Bool
  pub free_bytes : ℕ
  pub required_bytes : ℕ
  pub attachment_snapshot_available : Bool

pub record Env (W : Type 0) : Type 0 where
  pub formats : Formats
  pub digests : Digests
  pub ledger_bytes : Ledger → ℕ
  pub now : W → ℕ × W
  pub io : W → Outcome × W
  -- `UpdateExecutor`
  pub recovery_receipt_digest : RecoveryPoint → W → Result String × W
  pub probe : Manifest → W → Result Probe × W
  pub create_recovery_point : Identity → Manifest → W → Result RecoveryPoint × W
  pub stage : Manifest → W → Result (Unit {0}) × W
  pub enter_maintenance : W → Result (Unit {0}) × W
  pub resume_current : W → Result (Unit {0}) × W
  pub migrate : Manifest → W → Result (Unit {0}) × W
  pub start_candidate : Manifest → W → Result (Unit {0}) × W
  pub verify_candidate : Manifest → W → Result (Unit {0}) × W
  pub reopen_writes : Manifest → W → Result (Unit {0}) × W
  pub rollback_application : RecoveryPoint → W → Result (Unit {0}) × W
  pub rollback_database : RecoveryPoint → W → Result (Unit {0}) × W
  pub delete_recovery_point : RecoveryPoint → W → Result (Unit {0}) × W
  pub refresh_identity : W → Result Identity × W

-- The calls that change the installation, in the order in which a run makes them.
pub data Call : Type 0 where
  stage enter_maintenance create_recovery_point migrate start_candidate verify_candidate : Call
  reopen_writes resume_current : Call
  rollback_application rollback_database : RecoveryPoint → Call
  delete_recovery_point : String → Call

abbrev pub is_ok {ℓ} : {A : Type ℓ} → Result A → Bool
is_ok (ok _) = true
is_ok (err _) = false

-- The local variables of a run, and the calls that it has made so far, with whether each has returned.
pub record Frame : Type 0 where
  pub calls : List (Call × Bool)
  pub recovery_point : Option RecoveryPoint
  pub maintenance_entered : Bool

pub record Sys (W : Type 0) : Type 0 where
  pub ledger : Ledger
  pub identity : Identity
  pub frame : Frame
  pub vault : Vault
  pub world : W

abbrev pub Run : Type 0 → Type 0 → Type 0
Run W A = Sys W → Result A × Sys W

module _ {W A : Type 0} where
  unfoldable pub pure : A → Run W A
  pure a s = (ok a, s)

  unfoldable pub throw : String → Run W A
  throw message s = (err message, s)

  unfoldable pub lift : Result A → Run W A
  lift r s = (r, s)

  unfoldable pub gets : (Sys W → A) → Run W A
  gets f s = (ok (f s), s)

  abbrev recover : Result A → (String → Run W A) → Run W A
  recover (ok a) handler s = (ok a, s)
  recover (err e) handler s = handler e s

  -- `try { m } catch (error) { handler }`: what `m` wrote before it threw stays written
  unfoldable pub catch : Run W A → (String → Run W A) → Run W A
  catch m handler s = let (r, s') = m s in recover r handler s'

module _ {W A B : Type 0} where
  abbrev pub continue : Result A → (A → Run W B) → Run W B
  continue (ok a) f s = f a s
  continue (err e) f s = (err e, s)

  infixl 5 ◌>>=◌ ◌>>◌
  unfoldable pub ◌>>=◌ : Run W A → (A → Run W B) → Run W B
  ◌>>=◌ m f s = let (r, s') = m s in continue r f s'

  abbrev pub ◌>>◌ : Run W A → Run W B → Run W B
  m >> n = m >>= λ _. n

module _ {W : Type 0} where
  unfoldable pub modify_frame : (Frame → Frame) → Run W (Unit {0})
  modify_frame f s = (ok tt, record s { frame = f s.frame })

  unfoldable pub set_identity : Identity → Run W (Unit {0})
  set_identity identity s = (ok tt, record s { identity = identity })

  -- a service that changes only the world
  unfoldable pub ask : {A : Type 0} → (W → A × W) → Run W A
  ask f s = let (a, w) = f s.world in (ok a, record s { world = w })

  unfoldable pub consult : {A : Type 0} → (W → Result A × W) → Run W A
  consult f s = let (r, w) = f s.world in (r, record s { world = w })

  -- a call of the executor that is recorded, whether it fails or not
  unfoldable pub call : {A : Type 0} → Call → (W → Result A × W) → Run W A
  call c f s =
      let (r, w) = f s.world in
      (
        r,
        record s {
          world = w;
          frame = record s.frame { calls = s.frame.calls ++ (c, is_ok r) ∷ [] };
        },
      )

module _ {W : Type 0} (env : Env W) where
  abbrev pub read_result : Outcome → Ledger → Result Ledger
  read_result fine l = ok l
  read_result (before e) l = err e
  read_result (after e) l = err e

  -- `store.read`
  unfoldable pub read : Run W Ledger
  read s = let (o, w) = env.io s.world in (read_result o s.ledger, record s { world = w })

  abbrev pub stored : Outcome → Ledger → Ledger → Ledger
  stored fine old new = new
  stored (before e) old new = old
  stored (after e) old new = new

  abbrev pub write_result : Outcome → Result (Unit {0})
  write_result fine = ok tt
  write_result (before e) = err e
  write_result (after e) = err e

  unfoldable pub replace : Ledger → Run W (Unit {0})
  replace l s =
      let (o, w) = env.io s.world in
      (write_result o, record s { world = w; ledger = stored o s.ledger l })

  -- `store.write`
  unfoldable pub write : Ledger → Run W (Unit {0})
  write l = do kept ← lift (bounded env.formats env.ledger_bytes l); replace kept

  -- `mutate`; runs are considered one at a time, so its queue of callers is not modelled.
  unfoldable pub mutate : (Ledger → Result Ledger) → Run W (Unit {0})
  mutate update = do current ← read; next ← lift (update current); write next
