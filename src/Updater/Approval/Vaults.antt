-- ===== src/Updater/Approval/Vaults.antt =====
-- Which operations of the approval authority leave its files as they are.
use forgetbase.Prelude.{
  String, Bool, true, false, ◌≡◌, Option, none, some, Result, ◌∷◌, Option-cases, inl, inr, ◌⊎◌,
  is_some, if◌then◌else◌,
}
use forgetbase.Updater.Types.{Decision, Approval, Job, HostDecision, Consumption, Vault}
use forgetbase.Updater.Env.{Env, Sys, Outcome, ask, consult}
use forgetbase.Updater.Env.Triples.{Keeps, Keeps-throw, Keeps-pure, keeps_rules}
use forgetbase.Updater.Approval.{
  reject_when, given, check_path, access, installation_id, validate, decision_file, read_decision,
  consumed, approval_of, find_file, checked, publish_decision, publish_consumed, published, decide,
  consume,
}

module _ {W : Type 0} (G : Vault → Type 0) where
  abbrev pub OnVault : Sys W → Type 0
  OnVault s = G s.vault

  pub Keeps-reject_when : (b : Bool) (e : String) → Keeps OnVault (reject_when b e)
  unfolding reject_when
  Keeps-reject_when true e = Keeps-throw _ e
  Keeps-reject_when false e = Keeps-pure tt

  pub Keeps-given : {A : Type 0} (e : String) (o : Option A) → Keeps OnVault (given e o)
  Keeps-given e none = Keeps-throw _ e
  Keeps-given e (some a) = Keeps-pure a

  pub Keeps-ask_vault : {A : Type 0} (f : W → A × W) → Keeps OnVault (ask f)
  unfolding ask
  Keeps-ask_vault f = record { kept = λ s g. g }

  pub Keeps-consult_vault : {A : Type 0} (f : W → Result A × W) → Keeps OnVault (consult f)
  unfolding consult
  Keeps-consult_vault f = record { kept = λ s g. g }

  pub Keeps-check_path : (id : String) → Keeps OnVault (check_path id)
  unfolding check_path
  Keeps-check_path id = Keeps-reject_when _ _

module _ {W : Type 0} (G : Vault → Type 0) (env : Env W) where
  pub Keeps-access : Keeps (OnVault G) (access env)
  unfolding access
  Keeps-access = Keeps-consult_vault G _

  pub Keeps-installation_id : Keeps (OnVault G) (installation_id env)
  unfolding installation_id
  Keeps-installation_id = search (keeps_rules, Keeps-access, Keeps-given G, Keeps-reject_when G)

  pub Keeps-validate : (j : Job) → Keeps (OnVault G) (validate env j)
  unfolding validate
  Keeps-validate j =
      search (keeps_rules, Keeps-installation_id, Keeps-given G, Keeps-reject_when G) depth 14

  pub Keeps-decision_file : (j : Job) → Keeps (OnVault G) (decision_file env j)
  unfolding decision_file
  Keeps-decision_file j = search (keeps_rules, Keeps-access, Keeps-given G, Keeps-check_path G)

  pub Keeps-consumed : (j : Job) → Keeps (OnVault G) (consumed env j)
  unfolding consumed
  Keeps-consumed j =
      search
        (
          keeps_rules,
          Keeps-access,
          Keeps-given G,
          Keeps-check_path G,
          Keeps-reject_when G,
          Keeps-installation_id,
        )
        depth 14

  Keeps-checked :
      (j : Job) (a : Approval) (file : Option HostDecision)
      → Keeps (OnVault G) (checked env j a file)
  unfolding checked
  Keeps-checked j a none = Keeps-pure none
  Keeps-checked j a (some r) = search (keeps_rules, Keeps-reject_when G)

  pub Keeps-read_decision : (j : Job) → Keeps (OnVault G) (read_decision env j)
  unfolding read_decision
  Keeps-read_decision j =
      search (keeps_rules, Keeps-validate, Keeps-decision_file, Keeps-checked) depth 10

  pub Keeps-approval_of : (found : Option HostDecision) → Keeps (OnVault G) (approval_of env found)
  Keeps-approval_of none = Keeps-throw _ _
  Keeps-approval_of (some r) = search keeps_rules

abbrev pub with_decision : String → HostDecision → Vault → Vault
with_decision id r v = record v { decisions = (id, r) ∷ v.decisions }

abbrev pub with_consumption : String → Consumption → Vault → Vault
with_consumption id r v = record v { consumed = (id, r) ∷ v.consumed }

-- A property of the files that a new file at a free name keeps.
pub record IsStable (G : Vault → Type 0) : Type 0 where
  pub decisions :
      (id : String) (r : HostDecision) (v : Vault)
      → find_file id v.decisions ≡ none
      → G v
      → G (with_decision id r v)
  pub consumptions :
      (id : String) (r : Consumption) (v : Vault)
      → find_file id v.consumed ≡ none
      → G v
      → G (with_consumption id r v)

module _ {W : Type 0} (G : Vault → Type 0) (stable : IsStable G) (env : Env W) where
  Keeps-publish_decision :
      (id : String) (r : HostDecision) → Keeps (OnVault G) (publish_decision env id r)
  unfolding publish_decision
  Keeps-publish_decision id r = record {
    kept = λ s g. by_outcome (env.io s.world).0 s g (Option-cases (find_file id s.vault.decisions));
  }
    where
      by_outcome :
          (o : Outcome) (s : Sys W)
          → G s.vault
          → (find_file id s.vault.decisions ≡ none)
            ⊎ ((a : HostDecision) × (find_file id s.vault.decisions ≡ some a))
          → G (record s.vault {
            decisions =
                if (published env o (is_some (find_file id s.vault.decisions))).0
                then (id, r) ∷ s.vault.decisions
                else s.vault.decisions;
          })
      by_outcome (Outcome.before e) s g _ = g
      by_outcome Outcome.fine s g (inl free) = rw free (stable.decisions id r s.vault free g)
      by_outcome Outcome.fine s g (inr (a, there)) = rw there g
      by_outcome (Outcome.after e) s g (inl free) = rw free (stable.decisions id r s.vault free g)
      by_outcome (Outcome.after e) s g (inr (a, there)) = rw there g

  Keeps-publish_consumed :
      (id : String) (r : Consumption) → Keeps (OnVault G) (publish_consumed env id r)
  unfolding publish_consumed
  Keeps-publish_consumed id r = record {
    kept = λ s g. by_outcome (env.io s.world).0 s g (Option-cases (find_file id s.vault.consumed));
  }
    where
      by_outcome :
          (o : Outcome) (s : Sys W)
          → G s.vault
          → (find_file id s.vault.consumed ≡ none)
            ⊎ ((a : Consumption) × (find_file id s.vault.consumed ≡ some a))
          → G (record s.vault {
            consumed =
                if (published env o (is_some (find_file id s.vault.consumed))).0
                then (id, r) ∷ s.vault.consumed
                else s.vault.consumed;
          })
      by_outcome (Outcome.before e) s g _ = g
      by_outcome Outcome.fine s g (inl free) = rw free (stable.consumptions id r s.vault free g)
      by_outcome Outcome.fine s g (inr (a, there)) = rw there g
      by_outcome (Outcome.after e) s g (inl free) =
          rw free (stable.consumptions id r s.vault free g)
      by_outcome (Outcome.after e) s g (inr (a, there)) = rw there g

  pub Keeps-decide :
      (j : Job) (expected : String) (d : Decision) → Keeps (OnVault G) (decide env j expected d)
  unfolding decide
  Keeps-decide j expected d =
      search
        (
          keeps_rules,
          Keeps-validate G env,
          Keeps-consumed G env,
          Keeps-reject_when G,
          Keeps-ask_vault G,
          Keeps-publish_decision,
        )
        depth 24

  pub Keeps-consume : (j : Job) → Keeps (OnVault G) (consume env j)
  unfolding consume
  Keeps-consume j =
      search
        (
          keeps_rules,
          Keeps-read_decision G env,
          Keeps-approval_of G env,
          Keeps-check_path G,
          Keeps-ask_vault G,
          Keeps-publish_consumed,
        )
        depth 14
