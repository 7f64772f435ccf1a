-- ===== src/Worker/Monitor.antt =====
-- worker/main.py: `monitor_job`, which follows one build to its end, and the steps after a build that
-- succeeded (`_build_digest`, `_crane_login`, `promote_image`).
use ship_zen_gcp.Prelude.{
  ℕ, Bool, true, false, not, ◌&&◌, List, [], ◌∷◌, Text, Option, none, some, filter, ◌==◌,
  if◌then◌else◌, drop_spaces, drop_last_spaces,
}
use ship_zen_gcp.Database.{RowId, building, deploying, failed, build_failed}
use ship_zen_gcp.Shared.RepoConfig.{str, valid_image_digest}
use ship_zen_gcp.Worker.World.{
  Exn, other, failure_of, Job, build, fix, World, success, failure, diagnosis, M, pure, ◌>>◌, catch,
  finally, require, swallow,
}
use ship_zen_gcp.Worker.Store.{update_row, update_state, add_note, record_build}

-- What one look at the Job finds.
pub data Poll : Type 0 where
  active succeeded job_failed gone unreachable : Poll

-- What `failure_rules.classify` says of a log: a code, and whether it has settings for a retry.
pub record Diagnosis : Type 0 where
  pub code : ℕ
  pub retry_env : Bool

-- What the cluster and the registry answer while one build is followed. `polls` are the looks at the
-- Job before the hour is over; `reported` is the builder's termination message; `exposed` is the port
-- that the image's configuration names, if it can be read.
pub record Run : Type 0 where
  pub pod_appears : Bool
  pub polls : List Poll
  pub reported : Option Text
  pub login : Bool
  pub copied : Bool
  pub exposed : Option ℕ
  pub classified : Option Diagnosis

-- The polling loop: whether the Job succeeded before it failed, vanished, or the hour was over.
unfoldable pub job_succeeded : List Poll → Bool
job_succeeded [] = false
job_succeeded (succeeded ∷ ps) = true
job_succeeded (job_failed ∷ ps) = false
job_succeeded (gone ∷ ps) = false
job_succeeded (active ∷ ps) = job_succeeded ps
job_succeeded (unreachable ∷ ps) = job_succeeded ps

-- `(message or "").strip()`, `none` for the pod's container without a termination message, which is no
-- digest either.
abbrev pub digest_of : Option Text → Option Text
digest_of none = none
digest_of (some t) = some (drop_last_spaces (drop_spaces t))

abbrev pub is_valid : Option Text → Bool
is_valid none = false
is_valid (some d) = valid_image_digest (str d)

unfoldable pub set_port : RowId → Option ℕ → M (Unit {0})
set_port i none = pure tt
set_port i (some n) = swallow (update_row i (λ d. record d { port = some n }))

-- The image is copied by its digest, the digest recorded, and the deployment handed to the controller.
unfoldable pub finish_build : Bool → RowId → Run → M (Option Diagnosis)
finish_build bucket i run = do
  require (is_valid (digest_of run.reported)) other
  require run.login other
  require run.copied other
  update_row i (λ d. record d { image_digest = digest_of run.reported })
  set_port i run.exposed
  record_build bucket i success
  update_state i deploying none
  pure none

abbrev pub retries : Bool → Option Diagnosis → Bool
retries allow none = false
retries allow (some d) = allow && d.retry_env

unfoldable pub note_diagnosis : RowId → Option Diagnosis → M (Unit {0})
note_diagnosis i none = pure tt
note_diagnosis i (some d) = add_note i (diagnosis d.code)

unfoldable pub give_up : RowId → M (Option Diagnosis)
give_up i = do update_state i failed (some build_failed); pure none

unfoldable pub fail_build : Bool → Bool → RowId → Run → M (Option Diagnosis)
fail_build bucket allow i run = do
  record_build bucket i failure
  note_diagnosis i run.classified
  if retries allow run.classified then pure run.classified else give_up i

unfoldable pub follow_job : Bool → Bool → RowId → Run → M (Option Diagnosis)
follow_job bucket allow i run = do
  require run.pod_appears other
  update_state i building none
  if job_succeeded run.polls then finish_build bucket i run else fail_build bucket allow i run

-- The handler: whatever went wrong, the deployment fails.
unfoldable pub monitor_failed : Bool → RowId → Exn → M (Option Diagnosis)
monitor_failed bucket i e = do
  record_build bucket i failure
  update_state i failed (some (failure_of e))
  pure none

abbrev same_job : Job → Job → Bool
same_job (build a) (build b) = a == b
same_job (fix a) (fix b) = a == b
same_job (build a) (fix b) = false
same_job (fix a) (build b) = false

-- `delete_namespaced_job`, whose errors are ignored
unfoldable pub delete_job : Bool → Job → World → World
delete_job true j w = record w { jobs = filter (λ k. not (same_job k j)) w.jobs }
delete_job false j w = w

unfoldable pub monitor_job : Bool → Bool → Bool → Job → RowId → Run → M (Option Diagnosis)
unfolding delete_job
monitor_job bucket deletes allow j i run =
    finally (catch (follow_job bucket allow i run) (monitor_failed bucket i)) (delete_job deletes j)
