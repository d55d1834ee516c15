-- ===== src/Updater/Execution/Shape.antt =====
-- The calls that a run of an update may make, each with whether it returned.
use forgetbase.Prelude.{
  ℕ, ◌≤◌, String, Bool, true, ◌≡◌, refl, ap, Option, some, List, [], ◌∷◌, ◌++◌, map, ok,
  if◌then◌else◌, take,
}
use forgetbase.Updater.Types.{RecoveryPoint, RollbackMode, Manifest, Identity}
use forgetbase.Updater.Schema.{parse_point}
use forgetbase.Updater.Env.{Env, Frame, Call}
use forgetbase.Updater.Execution.{restores, is_database_restore}

-- The calls of an update that meets no failure, before it removes old recovery points.
abbrev pub steps : List Call
steps =
    Call.stage ∷ Call.enter_maintenance ∷ Call.create_recovery_point ∷ Call.migrate
    ∷ Call.start_candidate ∷ Call.verify_candidate ∷ Call.reopen_writes ∷ []

-- Calls that have all returned, but for the last one where `b` is false.
abbrev pub tried : List Call → Bool → List (Call × Bool)
tried [] b = []
tried (c ∷ []) b = (c, b) ∷ []
tried (c ∷ d ∷ cs) b = (c, true) ∷ tried (d ∷ cs) b

pub tried_snoc :
    (cs : List Call) (c : Call) (b : Bool) → tried cs true ++ (c, b) ∷ [] ≡ tried (cs ++ c ∷ []) b
tried_snoc [] c b = refl
tried_snoc (d ∷ []) c b = refl
tried_snoc (d ∷ e ∷ cs) c b = ap (λ l. (d, true) ∷ l) (tried_snoc (e ∷ cs) c b)

abbrev pub restore_call : RollbackMode → RecoveryPoint → Call
restore_call mode p =
    if is_database_restore mode then Call.rollback_database p else Call.rollback_application p

abbrev pub Called : ℕ → Bool → Frame → Type 0
Called n b f = f.calls ≡ tried (take n steps) b

module _ {W : Type 0} (env : Env W) (manifest : Manifest) where
  -- A recovery point that the executor has returned for the release, that parses and that is verified.
  pub record IsUsable (p : RecoveryPoint) : Type 0 where
    pub verified : p.verified ≡ true
    pub identity : Identity
    pub world : W
    pub made : RecoveryPoint
    pub returned : (env.create_recovery_point identity manifest world).0 ≡ ok made
    pub parsed : parse_point made ≡ ok p

  abbrev pub IsBacked : Option RecoveryPoint → Type 0
  IsBacked point = (p : RecoveryPoint) × (point ≡ some p) × IsUsable p

  -- The calls of a run of an update, in order, and the recovery point that it has kept: the first steps,
  -- each after the one before has returned; and after a failure the resumption of the current release
  -- or one restoration of the kept point.
  pub data Shape (calls : List (Call × Bool)) (point : Option RecoveryPoint) : Type 0 where
    stopped : (n : ℕ) (b : Bool) → n ≤ 3 → calls ≡ tried (take n steps) b → Shape calls point
    halted :
        (n : ℕ) (b : Bool)
        → 3 ≤ n
        → n ≤ 6
        → calls ≡ tried (take n steps) b
        → IsBacked point
        → Shape calls point
    resumed :
        (n : ℕ) (b r : Bool)
        → 1 ≤ n
        → n ≤ 3
        → calls ≡ tried (take n steps) b ++ (Call.resume_current, r) ∷ []
        → Shape calls point
    restored :
        (n : ℕ) (b r : Bool)
        → 3 ≤ n
        → n ≤ 6
        → restores manifest.rollback_mode ≡ true
        → (p : RecoveryPoint) → point ≡ some p
        → IsUsable p
        → calls ≡ tried (take n steps) b ++ (restore_call manifest.rollback_mode p, r) ∷ []
        → Shape calls point
    finished :
        (removed : List String) (b : Bool)
        → calls ≡ tried (steps ++ map Call.delete_recovery_point removed) b
        → IsBacked point
        → Shape calls point
