-- ===== src/Worker/Stages.antt =====
-- worker/main.py: the stages of `process_message` inside its `try`, up to the Job's creation.
use ship_zen_gcp.Prelude.{
  ℕ, Bool, false, not, ◌&&◌, [], ◌∷◌, Text, Option, none, some, codes, text_eq, starts_with,
  remove_suffix, rstrip, lower_ascii, drop, length, is_some, find?, ◌==◌, if◌then◌else◌,
}
use ship_zen_gcp.Database.{RowId, Deployment, Project}
use ship_zen_gcp.Shared.RepoConfig
use ship_zen_gcp.Shared.RepoConfig.{
  Document, mapping, null, str, Config, RepoConfigError, no_settings, parse_repo_config,
}
use ship_zen_gcp.Worker.World.{
  repo_config, clone, other, Secret, git_token, registry, Job, short, Message, M, pure, raise,
  modify, gets, ◌>>=◌, ◌>>◌, swallow, when, require,
}
use ship_zen_gcp.Worker.Store.{use_db, update_row}

-- How the Kubernetes API answers a create: done, 409, or another error.
pub data Answer : Type 0 where
  created conflict refused : Answer

-- The file shipzen.yaml, or else deployhub.yml, of the clone.
pub data ConfigFile : Type 0 where
  absent malformed : ConfigFile
  parsed : Document → ConfigFile

-- What git, GitHub, the cluster and the clone answer for one message.
pub record Env : Type 0 where
  pub github_token : Bool
  pub git_secret : Answer
  pub clone : Bool
  pub sparse : Bool
  pub config : ConfigFile
  pub fetch : Bool
  pub package_json : Bool
  pub has_dockerfile : Text → Bool
  pub push_token : Bool
  pub push_secret : Answer
  pub job : Answer
  pub fix_job : Answer
  pub log_bucket : Bool
  pub deletes : Bool

abbrev pub github : Text
github = codes "https://github.com/"

-- A value that Python takes as false: None or the empty string.
abbrev pub truthy : Option Text → Option Text
truthy none = none
truthy (some []) = none
truthy (some (c ∷ cs)) = some (c ∷ cs)

abbrev pub bound_name : Option Project → Option Text
bound_name none = none
bound_name (some q) = truthy q.github_repo_full_name

-- The repository that a URL names. A URL without one raises (an IndexError).
unfoldable pub named_repo : Text → Option Text
named_repo url =
    let base = remove_suffix (codes ".git") (rstrip b'/' url) in
    if starts_with github base then some (drop (length github) base) else none

abbrev pub compare_names : Option Text → Option Text → M Bool
compare_names none named = pure false
compare_names (some full_name) none = raise other
compare_names (some full_name) (some named) =
    pure (not (text_eq (lower_ascii named) (lower_ascii full_name)))

-- `bound_repo_mismatch`: whether the project is linked to another repository than the URL's.
unfoldable pub bound_repo_mismatch : Option RowId → Text → M Bool
bound_repo_mismatch none url = pure false
bound_repo_mismatch (some p) url =
    if starts_with github url
    then (do
      use_db
      bound ← gets (λ w. bound_name (find? (λ q. q.id == p) w.projects))
      compare_names bound (named_repo url))
    else pure false

-- `create_namespaced_secret`, replaced on a 409.
unfoldable pub create_secret : Answer → Secret → M (Unit {0})
create_secret created s = modify (λ w. record w { secrets = s ∷ w.secrets })
create_secret conflict s = modify (λ w. record w { secrets = s ∷ w.secrets })
create_secret refused s = raise other

-- `github_secret_name = ...`, `registry_secret_name = ...`
unfoldable pub hold : Secret → M (Unit {0})
hold s = modify (λ w. record w { held = s ∷ w.held })

unfoldable pub github_stage : Env → RowId → Text → M (Unit {0})
github_stage env i url =
    when (starts_with github url && env.github_token)
      (do hold (git_token (short i)); create_secret env.git_secret (git_token (short i)))

-- `os.makedirs(workspace, exist_ok=True)`
unfoldable pub make_workspace : RowId → M (Unit {0})
make_workspace i = modify (λ w. record w { workspaces = i ∷ w.workspaces })

-- The clone into the deployment's workspace. `record_commit` swallows its errors; the commit columns
-- are not modelled.
unfoldable pub clone_stage : Env → RowId → M (Unit {0})
clone_stage env i = do
  make_workspace i
  require env.clone clone
  swallow use_db
  require env.sparse other

abbrev pub of_result : RepoConfig.Parsed Config → M Config
of_result (RepoConfig.ok c) = pure c
of_result (RepoConfig.err e) = raise repo_config

-- `UPDATE deployments SET port = ..., health_check_path = ...`, of what the file gives. An accepted
-- port is not 0 and an accepted path is not empty.
unfoldable pub apply_settings : RowId → Option ℕ → Option Text → M (Unit {0})
apply_settings i none none = pure tt
apply_settings i (some n) none = update_row i (λ d. record d { port = some n })
apply_settings i none (some h) = update_row i (λ d. record d { health_check_path = some h })
apply_settings i (some n) (some h) =
    update_row i (λ d. record d { port = some n; health_check_path = some h })

unfoldable pub config_stage : Env → RowId → ConfigFile → M Config
config_stage env i absent = pure no_settings
config_stage env i malformed = raise other
config_stage env i (parsed doc) = do
  c ← of_result (parse_repo_config doc)
  apply_settings i c.port c.health_check_path
  pure c

abbrev pub or_else : Option Text → Option Text → Option Text
or_else none b = b
or_else (some a) b = some a

abbrev pub row_context : Option Deployment → Option Text
row_context none = none
row_context (some d) = truthy d.build_context

-- The build folder: the repository's, or else the one picked on the deploy page.
abbrev pub chosen : Option Text → Option Text → M (Option Text)
chosen (some c) picked = pure (some c)
chosen none none = pure none
chosen none (some c) = do
  cfg ← of_result (parse_repo_config (mapping null null (str c)))
  pure cfg.build_context

unfoldable pub context_stage : Option Deployment → Message → Config → M (Option Text)
context_stage row m c =
    chosen (truthy c.build_context) (or_else (row_context row) (truthy m.build_context))

-- The build folder's files, fetched into the sparse clone (a timeout raises), and its package.json,
-- which must be an object of objects if it is there.
unfoldable pub folder_stage : Env → Option Text → M (Unit {0})
folder_stage env folder = do
  when (is_some (truthy folder)) (require env.fetch other)
  require env.package_json other

-- `create_registry_secret`: none in local development.
unfoldable pub registry_stage : Env → RowId → Text → M (Unit {0})
registry_stage env i image = if starts_with (codes "local/") image then pure tt else (do
  require env.push_token other
  create_secret env.push_secret (registry (short i))
  hold (registry (short i)))

-- `create_build_job`: a Job that is there already is followed.
unfoldable pub create_build_job : Answer → Job → M (Unit {0})
create_build_job created j = modify (λ w. record w { jobs = j ∷ w.jobs })
create_build_job conflict j = pure tt
create_build_job refused j = raise other
