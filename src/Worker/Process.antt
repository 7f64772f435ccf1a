-- ===== src/Worker/Process.antt =====
-- worker/main.py: `process_message`, the whole life of one deploy message.
pub mod Rows
pub mod Outcomes
pub mod Finishing
pub mod Returning
pub mod Cleanup
pub mod Settling
use ship_zen_gcp.Prelude.{
  ℕ, Bool, true, false, not, ◌&&◌, ◌||◌, List, [], ◌∷◌, Text, Option, none, some, codes, any, all,
  filter, length, is_alnum, leb, ◌==◌, if◌then◌else◌, get_or, strip,
}
use ship_zen_gcp.Database.{RowId, State, deploying, running, failed, Failure, Deployment}
use ship_zen_gcp.Worker.World.{
  Exn, wrong_repository, failure_of, Secret, git_token, registry, Job, build, fix, short, Message,
  World, Note, auto_fix, M, pure, raise, modify, gets, ◌>>=◌, ◌>>◌, catch, finally, require, when,
}
use ship_zen_gcp.Worker.Store.{get_deployment, update_state, ack_message, add_to_dlq, add_note}
use ship_zen_gcp.Worker.Monitor.{Run, Diagnosis, monitor_job}
use ship_zen_gcp.Worker.Stages.{
  Env, bound_repo_mismatch, github_stage, clone_stage, config_stage, context_stage, folder_stage,
  registry_stage, create_build_job,
}

-- `[a-zA-Z0-9_.\-/]`
abbrev pub is_branch_char : ℕ → Bool
is_branch_char c = is_alnum c || c == b'_' || c == b'.' || c == b'-' || c == b'/'

-- `$` of a Python pattern: the end, or before a newline at the end.
abbrev pub chomp : Text → Text
chomp [] = []
chomp (c ∷ []) = if c == 10 then [] else c ∷ []
chomp (c ∷ d ∷ cs) = c ∷ chomp (d ∷ cs)

-- `re.match(r'^[a-zA-Z0-9_.\-/]{1,200}$', branch)`
unfoldable pub branch_ok : Text → Bool
branch_ok s = let t = chomp s in all is_branch_char t && leb 1 (length t) && leb (length t) 200

-- `deployment.get("state") in [DEPLOYING, RUNNING]`
abbrev pub is_done : State → Bool
is_done deploying = true
is_done running = true
is_done s = false

unfoldable pub already_built : Option Deployment → Bool
already_built none = false
already_built (some d) = is_done d.state

abbrev project_of : Option Deployment → Message → Option RowId
project_of none m = m.project_id
project_of (some d) m = some d.project

-- The retry with an automatic fix: once, and its own outcome is final.
unfoldable pub second_build : Env → RowId → Run → Option Diagnosis → M (Unit {0})
second_build env i run none = pure tt
second_build env i run (some d) = do
  add_note i (auto_fix d.code)
  create_build_job env.fix_job (fix (short i))
  _ ← monitor_job env.log_bucket env.deletes false (fix (short i)) i run
  pure tt

-- The `try` block. A Dockerfile in the build folder selects DockerfileBuilder, which allows no retry.
unfoldable pub build_stages : Env → Run → Run → Option Deployment → Message → RowId → M (Unit {0})
build_stages env run rerun row m i = do
  other_repo ← bound_repo_mismatch (project_of row m) m.repo_url
  require (not other_repo) wrong_repository
  github_stage env i m.repo_url
  clone_stage env i
  c ← config_stage env i env.config
  folder ← context_stage row m c
  folder_stage env folder
  registry_stage env i m.image_name
  create_build_job env.job (build (short i))
  retry ←
      monitor_job env.log_bucket env.deletes
        (not (env.has_dockerfile (strip b'/' (get_or folder [])))) (build (short i)) i run
  second_build env i rerun retry
  ack_message m.id

-- `except Exception as e:`
unfoldable pub build_failed_handler : Message → RowId → Exn → M (Unit {0})
build_failed_handler m i e = do update_state i failed (some (failure_of e)); add_to_dlq m

abbrev pub same_secret : Secret → Secret → Bool
same_secret (git_token a) (git_token b) = a == b
same_secret (registry a) (registry b) = a == b
same_secret (git_token a) (registry b) = false
same_secret (registry a) (git_token b) = false

-- The `finally` block: the workspace and the Secrets that this run named. An error of the API is
-- logged.
unfoldable pub clean_up : Bool → RowId → World → World
clean_up deletes i w =
    let kept = filter (λ s. not (any (same_secret s) w.held)) w.secrets in
    record w {
      workspaces = filter (λ k. not (k == i)) w.workspaces;
      secrets = if deletes then kept else w.secrets;
      held = [];
    }

unfoldable pub build_message : Env → Run → Run → Option Deployment → Message → RowId → M (Unit {0})
unfolding build_stages build_failed_handler
build_message env run rerun row m i =
    finally (catch (build_stages env run rerun row m i) (build_failed_handler m i))
      (clean_up env.deletes i)

abbrev is_empty : Text → Bool
is_empty [] = true
is_empty (c ∷ cs) = false

-- A rollback has its image already.
unfoldable pub skip_build : Message → RowId → M (Unit {0})
skip_build m i = do update_state i deploying none; ack_message m.id

unfoldable pub dispatch : Env → Run → Run → Message → RowId → Option Deployment → M (Unit {0})
unfolding already_built
dispatch env run rerun m i row =
    if already_built row
    then ack_message m.id
    else if m.is_rollback
    then skip_build m i
    else build_message env run rerun row m i

abbrev pub lacks_fields : Message → Bool
lacks_fields m = is_empty m.repo_url || is_empty m.image_name || not (branch_ok m.branch)

unfoldable pub process_valid : Env → Run → Run → Message → Option RowId → M (Unit {0})
process_valid env run rerun m none = add_to_dlq m
process_valid env run rerun m (some i) =
    if lacks_fields m
    then add_to_dlq m
    else (do row ← get_deployment i; dispatch env run rerun m i row)

unfoldable pub process_message : Env → Run → Run → Message → M (Unit {0})
unfolding process_valid
process_message env run rerun m =
    modify (λ w. record w { held = [] }) >> process_valid env run rerun m m.deployment_id
