-- ===== src/Updater/Approval/Consuming.antt =====
-- What stands behind a consumption that succeeds.
use forgetbase.Prelude.{
  ℕ, String, Bool, true, false, not, ◌≡◌, refl, sym, ap, Option, none, some, Result, ok, err, ◌∷◌,
  Option-cases, Bool-cases, inl, inr, ◌⊎◌, is_some, if◌then◌else◌, ◌==◌, ◌∙◌, arith, nat_eq,
}
use forgetbase.Updater.Types.{
  Decision, approved, denied, Approval, Job, HostDecision, Consumption, Vault,
}
use forgetbase.Updater.Env.{Env, Sys, Run, Outcome, pure, throw, gets, catch, ask, ◌>>=◌, ◌>>◌}
use forgetbase.Updater.Env.Triples.{
  Triple, After, Triple-bind, Triple-weaken, Triple-catch, keep_then,
}
use forgetbase.Updater.Approval.{
  reject_when, given, check_path, is_unchanged, is_bound, expiry, is_decision_on, validate,
  decision_file, absent, checked, read_decision, is_approved, approval_of, find_file,
  publish_consumed, published, consume, enoent,
}
use forgetbase.Updater.Approval.Vaults.{
  OnVault, Keeps-access, Keeps-installation_id, Keeps-check_path, Keeps-ask_vault, with_consumption,
}

module _ {W B : Type 0} {P E : Sys W → Type 0} {R : B → Sys W → Type 0} where
  -- the rest of a run after a test that passed
  reject_then :
      (b : Bool) (message : String) (f : Unit {0} → Run W B)
      → ((s : Sys W) → P s → E s)
      → (b ≡ false → Triple P (f tt) R E)
      → Triple P (reject_when b message >>= f) R E
  unfolding reject_when pure throw
  reject_then true message f e t =
      Triple-bind {Q = λ _ _. ⊥} (record { at = λ s p. e s p })
        (λ a. record { at = λ s p. absurd p })
  reject_then false message f e t =
      Triple-bind {Q = λ _. P} (record { at = λ s p. p }) (λ a. t refl)

  given_then :
      {A : Type 0} (message : String) (o : Option A) (f : A → Run W B)
      → ((s : Sys W) → P s → E s)
      → ((a : A) → o ≡ some a → Triple P (f a) R E)
      → Triple P (given message o >>= f) R E
  unfolding pure throw
  given_then message none f e t =
      Triple-bind {Q = λ _ _. ⊥} (record { at = λ s p. e s p })
        (λ a. record { at = λ s p. absurd p })
  given_then message (some a) f e t =
      Triple-bind {Q = λ b s. P s × (a ≡ b)} (record { at = λ s p. (p, refl) })
        λ b. record { at = λ s p. (t b (ap some p.1)).at s p.0 }

module _ {W : Type 0} (env : Env W) (j : Job) where
  -- `validate` accepts the request: its digest is that of its descriptor, the job has what the
  -- descriptor was made from, the operation is bound, and the expiry is the one that follows.
  pub record IsValidated (a : Approval) : Type 0 where
    pub of_job : j.approval ≡ some a
    pub digest : (a.request_digest == env.digests.descriptor_digest a.descriptor) ≡ true
    pub unchanged : is_unchanged j a.descriptor ≡ true
    pub bound : is_bound env a.descriptor ≡ true
    pub expires : a.descriptor.expires_at ≡ expiry a.descriptor

  -- A consumption of the job's approval was made on a decision that stood in its file: it approves
  -- this request, before its expiry; no consumption stood, and this one stands now.
  pub record IsAuthorized (before after : Vault) (r : HostDecision) : Type 0 where
    pub approval : Approval
    pub validated : IsValidated approval
    pub filed : find_file j.id before.decisions ≡ some r
    pub decided : is_decision_on env j approval r ≡ true
    pub agreed : r.decision ≡ approved
    pub fresh : find_file j.id before.consumed ≡ none
    pub time : ℕ
    pub stored :
        after ≡ with_consumption j.id (record { decided = r; consumed_at = some time }) before

  not-true : (b : Bool) → not b ≡ false → b ≡ true
  not-true true e = refl
  not-true false e = cc

  eq_of_nat_eq : (a b : ℕ) → nat_eq a b ≡ true → a ≡ b
  eq_of_nat_eq a b e = ground arith

  module _ (v : Vault) where
    abbrev At : Sys W → Type 0
    At = OnVault (λ u. u ≡ v)

    validate-Triple : Triple At (validate env j) (λ a s. At s × IsValidated a) At
    unfolding validate pure
    validate-Triple =
        given_then _ j.approval _ (λ s p. p)
          λ a of_job.
            reject_then _ _ _ (λ s p. p)
              λ formed.
                reject_then _ _ _ (λ s p. p)
                  λ small.
                    keep_then (Keeps-installation_id _ env) (λ s p. p)
                      λ id.
                        reject_then _ _ _ (λ s p. p)
                          λ here.
                            reject_then _ _ _ (λ s p. p)
                              λ digest.
                                reject_then _ _ _ (λ s p. p)
                                  λ unchanged.
                                    reject_then _ _ _ (λ s p. p)
                                      λ bound.
                                        reject_then _ _ _ (λ s p. p)
                                          λ expires. record {
                                            at = λ s p. (
                                              p,
                                              record {
                                                of_job = of_job;
                                                digest = not-true _ digest;
                                                unchanged = not-true _ unchanged;
                                                bound = not-true _ bound;
                                                expires = eq_of_nat_eq _ _ (not-true _ expires);
                                              },
                                            );
                                          }

    -- a decision that was read, if any, stands in the job's file
    abbrev IsFiled : Option HostDecision → Type 0
    IsFiled none = Unit {0}
    IsFiled (some r) = find_file j.id v.decisions ≡ some r

    decision_file-Triple : Triple At (decision_file env j) (λ r s. At s × IsFiled (some r)) At
    unfolding decision_file gets pure throw
    decision_file-Triple =
        keep_then (Keeps-check_path _ j.id) (λ s p. p)
          λ _.
            keep_then (Keeps-access _ env) (λ s p. p)
              λ _.
                Triple-bind {Q = λ o s. At s × (find_file j.id v.decisions ≡ o)}
                  (record {
                    at = λ s p. (p, ap (λ (u : Vault). find_file j.id u.decisions) (sym p));
                  })
                  λ o. stands o
      where
        stands :
            (o : Option HostDecision)
            → Triple
                (λ s. At s × (find_file j.id v.decisions ≡ o))
                (given "ENOENT" o)
                (λ r s. At s × IsFiled (some r))
                At
        stands none = record { at = λ s p. p.0 }
        stands (some r) = record { at = λ s p. p }

    -- what a decision that was accepted is
    abbrev IsAccepted : Option HostDecision → Type 0
    IsAccepted none = Unit {0}
    IsAccepted (some r) =
        (a : Approval) × IsValidated a
        × (find_file j.id v.decisions ≡ some r)
        × (is_decision_on env j a r ≡ true)

    checked-Triple :
        (a : Approval)
        → IsValidated a
        → (file : Option HostDecision)
        → Triple (λ s. At s × IsFiled file) (checked env j a file) (λ o s. At s × IsAccepted o) At
    unfolding checked pure
    checked-Triple a valid none = record { at = λ s p. (p.0, tt) }
    checked-Triple a valid (some r) =
        reject_then _ _ _ (λ s p. p.0)
          λ good. record { at = λ s p. (p.0, (a, valid, p.1, not-true _ good)) }

    read_decision-Triple : Triple At (read_decision env j) (λ o s. At s × IsAccepted o) At
    unfolding read_decision pure
    read_decision-Triple =
        Triple-bind validate-Triple λ a. record { at = λ s p. (body a p.1).at s p.0 }
      where
        body :
            (a : Approval)
            → IsValidated a
            → Triple At
                (do
                  file ← catch (do r ← decision_file env j; pure (some r)) (absent env none)
                  checked env j a file)
                (λ o s. At s × IsAccepted o)
                At
        body a valid =
            Triple-bind {Q = λ file s. At s × IsFiled file}
              (Triple-catch {E = At}
                (Triple-bind decision_file-Triple λ r. record { at = λ s p. p }) missing)
              (checked-Triple a valid)
          where
            missing :
                (e : String) → Triple At (absent env none e) (λ file s. At s × IsFiled file) At
            missing e = elim (Bool-cases (e == enoent)) [
              | inl b ↦ rw b (record { at = λ s p. (p, tt) })
              | inr b ↦ rw b (unfold throw in record { at = λ s p. p })
            ]

    approval_of-Triple :
        (o : Option HostDecision)
        → Triple
            (λ s. At s × IsAccepted o)
            (approval_of env o)
            (λ r s. At s × (IsAccepted (some r) × (r.decision ≡ approved)))
            (λ _. Unit {0})
    unfolding throw pure
    approval_of-Triple none = record { at = λ s p. tt }
    approval_of-Triple (some r) = by_decision r.decision refl
      where
        by_decision :
            (d : Decision)
            → r.decision ≡ d
            → Triple
                (λ s. At s × IsAccepted (some r))
                (if is_approved env d
                  then pure r
                  else throw "Host approval is required before execution")
                (λ q s. At s × (IsAccepted (some q) × (q.decision ≡ approved)))
                (λ _. Unit {0})
        by_decision approved e = record { at = λ s p. (p.0, (p.1, e)) }
        by_decision denied e = record { at = λ s p. tt }

    publish_consumed-Triple :
        (c : Consumption)
        → Triple At
            (publish_consumed env j.id c)
            (λ _ t. (find_file j.id v.consumed ≡ none) × (t.vault ≡ with_consumption j.id c v))
            (λ _. Unit {0})
    unfolding publish_consumed
    publish_consumed-Triple c = record {
      at =
          λ s p. by_outcome (env.io s.world).0 s p (Option-cases (find_file j.id s.vault.consumed));
    }
      where
        by_outcome :
            (o : Outcome) (s : Sys W)
            → s.vault ≡ v
            → (find_file j.id s.vault.consumed ≡ none)
              ⊎ ((a : Consumption) × (find_file j.id s.vault.consumed ≡ some a))
            → After
                (λ _ t. (find_file j.id v.consumed ≡ none) × (t.vault ≡ with_consumption j.id c v))
                (λ _. Unit {0})
                (
                  (published env o (is_some (find_file j.id s.vault.consumed))).1,
                  record s {
                    world = (env.io s.world).1;
                    vault = record s.vault {
                      consumed =
                          if (published env o (is_some (find_file j.id s.vault.consumed))).0
                          then (j.id, c) ∷ s.vault.consumed
                          else s.vault.consumed;
                    };
                  },
                )
        by_outcome (Outcome.before e) s p _ = tt
        by_outcome (Outcome.after e) s p (inl free) = rw free tt
        by_outcome (Outcome.after e) s p (inr (a, there)) = rw there tt
        by_outcome Outcome.fine s p (inl free) = rw free (
          ap (λ (u : Vault). find_file j.id u.consumed) (sym p) ∙ free,
          ap (with_consumption j.id c) p,
        )
        by_outcome Outcome.fine s p (inr (a, there)) = rw there tt

    consume-Triple : Triple At (consume env j) (λ r t. IsAuthorized v t.vault r) (λ _. Unit {0})
    unfolding consume
    consume-Triple =
        Triple-bind (Triple-weaken read_decision-Triple (λ s p. p) (λ _ s p. p) (λ _ _. tt))
          λ found.
            Triple-bind (approval_of-Triple found)
              λ r. record { at = λ s p. (rest r p.1.0 p.1.1).at s p.0 }
      where
        rest :
            (r : HostDecision)
            → IsAccepted (some r)
            → r.decision ≡ approved
            → Triple At
                (do
                  check_path j.id
                  now ← ask env.now
                  publish_consumed env j.id (record { decided = r; consumed_at = some now })
                  pure r)
                (λ q t. IsAuthorized v t.vault q)
                (λ _. Unit {0})
        rest r (a, valid, filed, good) agreed =
            keep_then (Keeps-check_path _ j.id) (λ _ _. tt)
              λ _.
                keep_then (Keeps-ask_vault _ env.now) (λ _ _. tt)
                  λ now.
                    Triple-bind
                      (publish_consumed-Triple (record { decided = r; consumed_at = some now }))
                      λ _.
                        unfold pure in
                        record {
                          at = λ s p. record {
                            approval = a;
                            validated = valid;
                            filed = filed;
                            decided = good;
                            agreed = agreed;
                            fresh = p.0;
                            time = now;
                            stored = p.1;
                          };
                        }

  After_ok :
      {A : Type 0} (Q : A → Sys W → Type 0) (E : Sys W → Type 0) (r : Result A) (a : A) (t : Sys W)
      → After Q E (r, t)
      → r ≡ ok a
      → Q a t
  After_ok Q E (ok b) a t q e = let same : b ≡ a = ground arith in rw (← same) q
  After_ok Q E (err x) a t q e = cc

  -- A consumption that succeeds returns the decision that stood in the job's file: it approves the
  -- digest of the job's own descriptor, from which the job does not differ, and was made before the
  -- expiry. No consumption of the job stood before, and the only change to the authority's files is
  -- that this one now stands.
  pub consume-IsAuthorized :
      (s : Sys W) (r : HostDecision)
      → (consume env j s).0 ≡ ok r
      → IsAuthorized s.vault (consume env j s).1.vault r
  consume-IsAuthorized s r e =
      After_ok (λ q t. IsAuthorized s.vault t.vault q) (λ _. Unit {0}) (consume env j s).0 r
        (consume env j s).1 ((consume-Triple s.vault).at s refl) e
