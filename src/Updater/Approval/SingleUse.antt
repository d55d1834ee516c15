-- ===== src/Updater/Approval/SingleUse.antt =====
-- The files of the approval authority are written once, so an approval is used once.
use forgetbase.Prelude.{
  String, ◌≡◌, ◌≢◌, refl, none, some, ok, List, ◌∷◌, Bool-cases, inl, inr, ◌==◌, eq_iff,
}
use forgetbase.Updater.Types.{Decision, Job, HostDecision, Consumption, Vault}
use forgetbase.Updater.Env.{Env, Sys}
use forgetbase.Updater.Approval.{find_file, decide, consume}
use forgetbase.Updater.Approval.Vaults.{IsStable, Keeps-decide, Keeps-consume}
use forgetbase.Updater.Approval.Consuming.{consume-IsAuthorized}

find_file_cons :
    {A : Type 0} (id name : String) (a b : A) (files : List (String × A))
    → find_file name files ≡ none
    → find_file id files ≡ some b
    → find_file id ((name, a) ∷ files) ≡ some b
find_file_cons id name a b files free there = elim (Bool-cases (name == id)) [
  | inl e ↦ let same : name ≡ id = (eq_iff name id).0 e in cc (free, there, same)
  | inr e ↦ rw e there
]

find_file_head :
    {A : Type 0} (id : String) (a : A) (files : List (String × A))
    → find_file id ((id, a) ∷ files) ≡ some a
find_file_head id a files = rw ((eq_iff id id).1 refl)

consumed-IsStable :
    (id : String) (c : Consumption) → IsStable (λ v. find_file id v.consumed ≡ some c)
consumed-IsStable id c = record {
  decisions = λ name r v free there. there;
  consumptions = λ name r v free there. find_file_cons id name r c v.consumed free there;
}

decided-IsStable :
    (id : String) (d : HostDecision) → IsStable (λ v. find_file id v.decisions ≡ some d)
decided-IsStable id d = record {
  decisions = λ name r v free there. find_file_cons id name r d v.decisions free there;
  consumptions = λ name r v free there. there;
}

module _ {W : Type 0} (env : Env W) where
  -- What may happen to the system from one state on: decisions and consumptions of any jobs, whether
  -- they succeed or fail, and anything that leaves the authority's files as they are.
  pub data Later (s : Sys W) : Sys W → Type 0 where
    here : Later s s
    decides :
        {t : Sys W}
        → Later s t
        → (j : Job) (expected : String) (d : Decision) → Later s (decide env j expected d t).1
    consumes : {t : Sys W} → Later s t → (j : Job) → Later s (consume env j t).1
    elsewhere : {t : Sys W} → Later s t → (u : Sys W) → u.vault ≡ t.vault → Later s u

  Later-stable :
      (G : Vault → Type 0) → IsStable G → {s t : Sys W} → Later s t → G s.vault → G t.vault
  Later-stable G stable here g = g
  Later-stable G stable (decides {t} l j expected d) g =
      (Keeps-decide G stable env j expected d).kept t (Later-stable G stable l g)
  Later-stable G stable (consumes {t} l j) g =
      (Keeps-consume G stable env j).kept t (Later-stable G stable l g)
  Later-stable G stable (elsewhere {t} l u same) g = rw same (Later-stable G stable l g)

  -- A host decision and a consumption are never replaced: what stands in a job's file stands there
  -- whatever is decided and consumed later.
  pub files_stand :
      {s t : Sys W} (id : String) (d : HostDecision) (c : Consumption)
      → Later s t
      → (find_file id s.vault.decisions ≡ some d → find_file id t.vault.decisions ≡ some d)
        × (find_file id s.vault.consumed ≡ some c → find_file id t.vault.consumed ≡ some c)
  files_stand id d c l =
      (Later-stable _ (decided-IsStable id d) l, Later-stable _ (consumed-IsStable id c) l)

  -- An approval is consumed at most once: after a consumption has succeeded, none of a job with the
  -- same id succeeds, whatever is decided and consumed in between.
  pub consume_once :
      (j k : Job) (s t : Sys W) (r q : HostDecision)
      → (consume env j s).0 ≡ ok r
      → Later (consume env j s).1 t
      → k.id ≡ j.id
      → (consume env k t).0 ≢ ok q
  consume_once j k s t r q first l same second =
      let a = consume-IsAuthorized env j s r first in
      let b = consume-IsAuthorized env k t q second in
      let stood : find_file j.id (consume env j s).1.vault.consumed
          ≡ some (record { decided = r; consumed_at = some a.time }) =
        rw a.stored (find_file_head j.id _ s.vault.consumed) in
      let stands = (files_stand j.id r _ l).1 stood in cc (b.fresh, stands, same)
