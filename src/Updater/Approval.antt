-- ===== src/Updater/Approval.antt =====
-- packages/updater/src/approval.ts: the host's approvals of requests, as files that are written once.
-- An error of the file system with the code `ENOENT` is the message `ENOENT`.
pub mod Vaults
pub mod Consuming
pub mod SingleUse
mod Tests
use forgetbase.Prelude.{
  ℕ, ◌+◌, ◌*◌, String, Bool, true, false, not, ◌&&◌, ◌||◌, Option, none, some, List, [], ◌∷◌, all,
  length, ltb, leb, nat_eq, opt_eq, if◌then◌else◌, is_some, is_none, ◌==◌, is_digit, is_hex,
  is_identifier, is_filled, codes, Result, ok, err,
}
use forgetbase.Updater.Types.{
  Kind, update, rollback, Decision, approved, Phase, awaiting_approval, scheduled, Approval,
  Descriptor, Manifest, RecoveryPoint, Job, HostDecision, Consumption, Vault, kind_eq, bool_eq,
}
use forgetbase.Updater.Env.{
  Env, Sys, Run, Outcome, fine, before, after, pure, throw, gets, catch, ask, consult, write_result,
  ◌>>=◌, ◌>>◌,
}

abbrev pub enoent : String
enoent = "ENOENT"

abbrev pub opt_nat_eq : Option ℕ → Option ℕ → Bool
opt_nat_eq none none = true
opt_nat_eq (some a) (some b) = nat_eq a b
opt_nat_eq _ _ = false

-- one place of the pattern of an installation's id: `h` for `[a-f0-9]`, `v` for `[89ab]`
abbrev fits_place : ℕ → ℕ → Bool
fits_place p c =
    if nat_eq p b'h'
    then is_hex c
    else if nat_eq p b'v'
    then nat_eq c b'8' || nat_eq c b'9' || nat_eq c b'a' || nat_eq c b'b'
    else nat_eq p c

abbrev fits : List ℕ → List ℕ → Bool
fits [] [] = true
fits (p ∷ ps) (c ∷ cs) = fits_place p c && fits ps cs
fits _ _ = false

unfoldable pub is_installation_id : String → Bool
is_installation_id id = fits (codes "hhhhhhhh-hhhh-4hhh-vhhh-hhhhhhhhhhhh") (codes id)

-- a text that is there and not empty
abbrev pub is_truthy : Option String → Bool
is_truthy none = false
is_truthy (some s) = is_filled s

abbrev pub names_point : Option String → Option RecoveryPoint → Bool
names_point (some id) (some p) = id == p.id
names_point _ _ = false

-- The job has what its descriptor was made from.
unfoldable pub is_unchanged : Job → Descriptor → Bool
is_unchanged j d =
    j.id == d.job_id
    && kind_eq j.kind d.kind
    && nat_eq j.requested_at d.requested_at
    && opt_nat_eq j.scheduled_for d.scheduled_for
    && j.current_version == d.source_identity.version
    && j.target_version == d.target_version
    && bool_eq j.automatic_rollback d.automatic_rollback
    && opt_eq j.manifest_key_id d.manifest_key_id
    && (not (kind_eq j.kind rollback) || names_point j.recovery_point_id d.recovery_point)

abbrev pub expiry : Descriptor → ℕ
expiry d = elim d.scheduled_for [ none ↦ d.requested_at + 86400000 | some t ↦ t + 3600000 ]

-- a phase that takes a decision
abbrev pub takes_decision : Phase → Bool
takes_decision awaiting_approval = true
takes_decision scheduled = true
takes_decision _ = false

abbrev pub find_file : {A : Type 0} → String → List (String × A) → Option A
find_file id [] = none
find_file id ((name, a) ∷ rest) = if name == id then some a else find_file id rest

module _ {W : Type 0} where
  -- `if (bad) throw new Error(message)`
  unfoldable pub reject_when : Bool → String → Run W (Unit {0})
  reject_when true message = throw message
  reject_when false message = pure tt

  abbrev pub given : {A : Type 0} → String → Option A → Run W A
  given message none = throw message
  given message (some a) = pure a

  -- `path`
  unfoldable pub check_path : String → Run W (Unit {0})
  unfolding reject_when
  check_path id = reject_when (not (is_identifier id)) "Invalid approval job ID"

module _ {W : Type 0} (env : Env W) where
  -- an access to the host's files that changes nothing: `privateDirectory`, `readPrivateFile`
  unfoldable pub access : Run W (Unit {0})
  access = consult (λ w. ((write_result env (env.io w).0), (env.io w).1))

  unfoldable pub installation_id : Run W String
  unfolding access reject_when
  installation_id = do
    access
    file ← gets (λ s. s.vault.installation_id)
    id ← given enoent file
    reject_when (not (is_installation_id id)) "Invalid host installation identity"
    pure id

  -- the binding of an operation to what it may use
  unfoldable pub is_bound : Descriptor → Bool
  is_bound d = elim d.kind [
    | update ↦ elim d.release [
      | none ↦ false
      | some r ↦
          is_truthy d.manifest_key_id
          && opt_eq d.manifest_digest (some (env.digests.release_digest r))
          && r.version == d.target_version
          && is_none d.recovery_point
          && is_none d.recovery_receipt_digest
          && is_none d.confirm_data_loss_after
    ]
    | rollback ↦ elim d.recovery_point [
      | none ↦ false
      | some p ↦
          is_none d.release
          && is_none d.manifest_digest
          && is_none d.manifest_key_id
          && is_truthy d.recovery_receipt_digest
          && p.version == d.target_version
          && opt_nat_eq d.confirm_data_loss_after (some p.created_at)
    ]
  ]

  unfoldable pub validate : Job → Run W Approval
  unfolding installation_id reject_when is_unchanged is_bound
  validate j = do
    approval ← given "Job has no host approval descriptor" j.approval
    let d = approval.descriptor
    reject_when (not (env.formats.descriptor_ok d)) "Invalid approval descriptor"
    reject_when (ltb (256 * 1024) (env.digests.descriptor_bytes d))
        "Host approval descriptor exceeds 256 KiB; this signed release is too large to approve"
    id ← installation_id
    reject_when (not (d.installation_id == id)) "Host approval belongs to another installation"
    reject_when (not (approval.request_digest == env.digests.descriptor_digest d))
        "Host approval request digest mismatch"
    reject_when (not (is_unchanged j d)) "Immutable host approval request changed"
    reject_when (not (is_bound d)) "Invalid host approval operation binding"
    reject_when (not (nat_eq d.expires_at (expiry d))) "Invalid host approval expiry"
    pure approval

  -- whether a decision's file is one on this request: `readDecision`'s last test
  unfoldable pub is_decision_on : Job → Approval → HostDecision → Bool
  is_decision_on j a r =
      r.installation_id == a.descriptor.installation_id
      && r.job_id == j.id
      && r.request_digest == a.request_digest
      && nat_eq r.expires_at a.descriptor.expires_at
      && elim r.decided_at [ none ↦ false | some t ↦ ltb t r.expires_at ]

  -- `JSON.parse(await readPrivateFile(this.path("decisions", job.id)))`
  unfoldable pub decision_file : Job → Run W HostDecision
  unfolding access check_path
  decision_file j = do
    check_path j.id
    access
    file ← gets (λ s. find_file j.id s.vault.decisions)
    given enoent file

  -- the `catch` of a file that need not be there
  abbrev pub absent : {A : Type 0} → A → String → Run W A
  absent a e = if e == enoent then pure a else throw e

  -- what `readDecision` makes of the file
  unfoldable pub checked : Job → Approval → Option HostDecision → Run W (Option HostDecision)
  unfolding is_decision_on reject_when
  checked j approval none = pure none
  checked j approval (some r) = do
    reject_when (not (is_decision_on j approval r))
        "Host decision does not match this immutable request"
    pure (some r)

  unfoldable pub read_decision : Job → Run W (Option HostDecision)
  unfolding validate decision_file checked
  read_decision j = do
    approval ← validate j
    file ← catch (do r ← decision_file j; pure (some r)) (absent none)
    checked j approval file

  abbrev pub digest_is : Option Approval → String → Bool
  digest_is none digest = false
  digest_is (some a) digest = a.request_digest == digest

  abbrev pub is_approved : Decision → Bool
  is_approved approved = true
  is_approved _ = false

  unfoldable pub consumed : Job → Run W Bool
  unfolding access check_path installation_id
  consumed j = do
    access
    catch
        (do
          check_path j.id
          access
          file ← gets (λ s. find_file j.id s.vault.consumed)
          r ← given enoent file
          reject_when
              (not (r.decided.job_id == j.id && digest_is j.approval r.decided.request_digest))
              "Invalid consumed host approval record"
          id ← installation_id
          reject_when
              (not (
                r.decided.installation_id == id
                && is_approved r.decided.decision
                && is_some r.consumed_at))
              "Invalid consumed host approval record"
          pure true)
        (absent false)

  -- `publishExclusive`: whether the file now stands, and what the caller learns. The link fails
  -- where the file is there; the last access may fail after it.
  abbrev pub published : Outcome → Bool → Bool × Result (Unit {0})
  published (before e) there = (false, err e)
  published fine true = (false, err "EEXIST")
  published fine false = (true, ok tt)
  published (after e) true = (false, err "EEXIST")
  published (after e) false = (true, err e)

  unfoldable pub publish_decision : String → HostDecision → Run W (Unit {0})
  publish_decision id r s =
      let (o, w) = env.io s.world in
      let (stands, result) = published o (is_some (find_file id s.vault.decisions)) in
      (
        result,
        record s {
          world = w;
          vault = record s.vault {
            decisions = if stands then (id, r) ∷ s.vault.decisions else s.vault.decisions;
          };
        },
      )

  unfoldable pub publish_consumed : String → Consumption → Run W (Unit {0})
  publish_consumed id r s =
      let (o, w) = env.io s.world in
      let (stands, result) = published o (is_some (find_file id s.vault.consumed)) in
      (
        result,
        record s {
          world = w;
          vault = record s.vault {
            consumed = if stands then (id, r) ∷ s.vault.consumed else s.vault.consumed;
          };
        },
      )

  unfoldable pub decide : Job → String → Decision → Run W HostDecision
  unfolding validate consumed publish_decision reject_when check_path
  decide j expected decision = do
    approval ← validate j
    reject_when
        (not (takes_decision j.phase) || is_some j.started_at || is_some approval.consumed_at)
        "Only pending unconsumed requests accept a host decision"
    used ← consumed j
    reject_when used "Only pending unconsumed requests accept a host decision"
    reject_when (not (expected == approval.request_digest))
        "Expected request digest does not match the displayed request"
    now ← ask env.now
    reject_when (leb approval.descriptor.expires_at now) "Host approval request has expired"
    decided ← ask env.now
    let r : HostDecision = record {
      installation_id = approval.descriptor.installation_id;
      job_id = j.id;
      request_digest = approval.request_digest;
      expires_at = approval.descriptor.expires_at;
      decision = decision;
      decided_at = some decided;
    }
    check_path j.id
    publish_decision j.id r
    pure r

  abbrev pub approval_of : Option HostDecision → Run W HostDecision
  approval_of none = throw "Host approval is required before execution"
  approval_of (some r) =
      if is_approved r.decision then pure r else throw "Host approval is required before execution"

  unfoldable pub consume : Job → Run W HostDecision
  unfolding read_decision publish_consumed check_path
  consume j = do
    found ← read_decision j
    r ← approval_of found
    check_path j.id
    now ← ask env.now
    publish_consumed j.id (record { decided = r; consumed_at = some now })
    pure r
