-- ===== src/Updater/Jobs.antt =====
-- packages/updater/src/manager.ts: how the manager changes the jobs of its ledger.
use Prim.Native.Char.{Char, code}
use Prim.Native.String.{char_at}
use forgetbase.Prelude.{
  text, ℕ, zero, suc, ◌-◌, String, Bool, true, false, Option, some, List, [], ◌∷◌, Result, ok,
  if◌then◌else◌, find, any, ◌==◌, ◌||◌, is_digit, is_lower, is_upper, nat_eq,
}
use forgetbase.Prelude.{◌>>=◌ as bind_result}
use forgetbase.Updater.Types.{Phase, failed, Job}
use forgetbase.Updater.Schema.{Formats, parse_job}
use forgetbase.Updater.Env.{Env, Run, pure, throw, ask, gets, mutate, ◌>>=◌, ◌>>◌}

-- `classifyError`, for a message in ASCII: lower case, runs of other characters as one `_`, none at
-- the ends, and at most 120 characters; `update_failed` where nothing is left.
abbrev lower : Char → Char
lower c = if is_upper (code c) then char_at "abcdefghijklmnopqrstuvwxyz" (code c - b'A') else c

abbrev is_word : Char → Bool
is_word c = is_digit (code c) || is_lower (code c)

abbrev underscore : Char
underscore = "_"

unfoldable pub collapse : Bool → String → String
collapse in_gap String.[] = String.[]
collapse in_gap (String.◌∷◌ c s) =
    let kept = String.◌∷◌ (lower c) (collapse false s) in
    let gap = collapse true s in
    if is_word (lower c) then kept else if in_gap then gap else String.◌∷◌ underscore gap

unfoldable pub strip_start : String → String
strip_start String.[] = String.[]
strip_start (String.◌∷◌ c s) = if nat_eq (code c) b'_' then strip_start s else String.◌∷◌ c s

abbrev strip_end_cons : Char → String → String
strip_end_cons c String.[] = if nat_eq (code c) b'_' then String.[] else String.◌∷◌ c String.[]
strip_end_cons c (String.◌∷◌ d s) = String.◌∷◌ c (String.◌∷◌ d s)

unfoldable pub strip_end : String → String
strip_end String.[] = String.[]
strip_end (String.◌∷◌ c s) = strip_end_cons c (strip_end s)

unfoldable pub slice_to : ℕ → String → String
slice_to zero s = String.[]
slice_to (suc n) String.[] = String.[]
slice_to (suc n) (String.◌∷◌ c s) = String.◌∷◌ c (slice_to n s)

abbrev or_else : String → String → String
or_else fallback String.[] = fallback
or_else fallback (String.◌∷◌ c s) = String.◌∷◌ c s

unfoldable pub classify_error : String → String
unfolding collapse strip_start strip_end slice_to
classify_error message =
    or_else "update_failed" (slice_to 120 (strip_end (strip_start (collapse false message))))

abbrev pub has_id : String → Job → Bool
has_id id j = j.id == id

-- the `map` of `updateJob`, whose callback may throw
unfoldable pub map_job : Formats → String → (Job → Result Job) → List Job → Result (List Job)
map_job f id update [] = ok []
map_job f id update (j ∷ js) =
    bind_result (if has_id id j then bind_result (update j) (parse_job f) else ok j)
      λ j'. bind_result (map_job f id update js) λ js'. ok (j' ∷ js')

abbrev pub find_job : String → List Job → Option Job
find_job id = find (has_id id)

module _ {W : Type 0} (env : Env W) where
  -- `updateJob`: it writes the ledger before it reports that no job has the id.
  unfoldable pub try_update_job : String → (Job → Result Job) → Run W (Unit {0})
  try_update_job id update = do
    before ← gets (λ s. s.ledger.jobs)
    mutate env
        λ l. bind_result (map_job env.formats id update l.jobs) λ js. ok (record l { jobs = js })
    if any (has_id id) before then pure tt else throw (text "Update job not found: " id "")

  unfoldable pub update_job : String → (Job → Job) → Run W (Unit {0})
  unfolding try_update_job
  update_job id update = try_update_job id (λ j. ok (update j))

  -- `setPhase`
  unfoldable pub set_phase : String → Phase → ℕ → String → Run W (Unit {0})
  unfolding update_job
  set_phase id phase progress message =
      update_job id λ j. record j { phase = phase; progress_percent = progress; message = message }

  -- A change of a job that also sets its time of completion. The clock is read before the ledger.
  unfoldable pub complete_job : String → (Job → Job) → Run W (Unit {0})
  unfolding update_job
  complete_job id update = do
    t ← ask env.now
    update_job id λ j. record (update j) { completed_at = some t }

  -- `failJob`
  unfoldable pub fail_job : String → String → String → Run W (Unit {0})
  unfolding complete_job
  fail_job id error_code message =
      complete_job id
        λ j. record j { phase = failed; message = message; error_code = some error_code }
