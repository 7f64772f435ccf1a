-- ===== src/Api/Create.antt =====
-- api/routers/deployments.py: `_create_deployment`, and what it asks of api/github_access.py.
pub mod Atomic
pub mod Bounds
use ship_zen_gcp.Prelude.{
  ℕ, ◌+◌, ◌≤◌, ◌≡◌, refl, Bool, true, false, not, ◌&&◌, ◌||◌, List, [], ◌∷◌, ◌++◌, Text, Option,
  none, some, any, ◌==◌, if◌then◌else◌, is_some, get_or, codes,
}
use ship_zen_gcp.Database.{
  RowId, State, queued, production, Deployment, Status, provisioning, ready, Project, in_flight,
  is_production,
}
use ship_zen_gcp.Database.Index.{insert}
use ship_zen_gcp.Database.Statements.{update}
use ship_zen_gcp.Api.Store.{
  Store, Payload, Request, Reply, ok, http, ◌>>=◌, ◌>>◌, guard, queue_deployment,
}
use ship_zen_gcp.Api.Access.{check_project_access}
use ship_zen_gcp.Api.Limits.{Limits, check_deploy_limits}

-- `CreateDeploymentRequest`, validated.
pub record Body : Type 0 where
  pub repo_url : Text
  pub port : Option ℕ
  pub branch : Text
  pub build_context : Option Text

pub record Repo : Type 0 where
  pub id : ℕ
  pub full_name : Text

abbrev pub accepts : Status → Bool
accepts ready = true
accepts provisioning = true
accepts s = false

-- `project_id = %s AND kind = 'production' AND state IN (...)`
unfoldable pub is_active : RowId → Deployment → Bool
unfolding is_production in_flight
is_active p d = d.project == p && is_production d.kind && in_flight d.state

-- `enforce_project_binding`. A bound id of 0 counts as none.
abbrev pub binds : Option ℕ → Option Repo → Bool
binds none r = true
binds (some b) none = true
binds (some b) (some r) = b == 0 || b == r.id

-- The checks. What GitHub says of the repository (`check_repo_access`) is given: a refusal, no GitHub
-- repository, or one that the user can read.
unfoldable pub create_checks :
    Limits → Request → Project → Reply (Option Repo) → RowId → Store → Reply (Option Repo)
unfolding is_active check_deploy_limits
create_checks l req project answer p s = do
  guard (accepts project.status) 409
  guard req.queried 500
  guard (not (any (is_active p) s.deployments)) 409
  repo ← answer
  guard (binds project.github_repo_id repo) 403
  check_deploy_limits l req p s
  ok repo

unfoldable pub new_deployment : Request → RowId → Body → Text → Deployment
new_deployment req p body image = record {
  id = req.fresh;
  project = p;
  state = queued;
  kind = production;
  pr_number = none;
  repo_url = body.repo_url;
  branch = body.branch;
  image_uri = image;
  image_digest = none;
  build_context = body.build_context;
  replicas = some 1;
  port = body.port;
  health_check_path = some (codes "/");
  created_at = req.now;
  updated_at = req.now;
  scale_down_after = none;
  last_error = none;
}

unfoldable pub deploy_message : Deployment → Payload
deploy_message d = record {
  deployment_id = d.id;
  project_id = d.project;
  repo_url = d.repo_url;
  branch = d.branch;
  image_name = d.image_uri;
  build_context = get_or d.build_context [];
  is_rollback = false;
}

abbrev is_unbound : Option ℕ → Bool
is_unbound none = true
is_unbound (some b) = b == 0

abbrev is_null : Option ℕ → Bool
is_null none = true
is_null (some b) = false

-- The first GitHub deployment binds the project to its repository.
unfoldable pub bind_project : Project → Option Repo → RowId → List Project → List Project
unfolding update
bind_project project none p ps = ps
bind_project project (some r) p ps =
    if is_unbound project.github_repo_id
    then update (λ q. q.id == p && is_null q.github_repo_id)
        (λ q. record q { github_repo_id = some r.id; github_repo_full_name = some r.full_name }) ps
    else ps

-- The transaction: the row, its outbox message and the binding, or nothing (500).
abbrev pub commit :
    Request
    → Project
    → Option Repo
    → Deployment
    → Option (List Deployment)
    → Store
    → Reply Deployment × Store
commit req project repo d none s = (http 500, s)
commit req project repo d (some rows) s =
    if req.committed
    then (
      ok d,
      queue_deployment (deploy_message d) (record s {
        deployments = rows;
        projects = bind_project project repo d.project s.projects;
      }),
    )
    else (http 500, s)

abbrev pub submit :
    Request → Project → RowId → Body → Text → Reply (Option Repo) → Store → Reply Deployment × Store
submit req project p body image (http n) s = (http n, s)
submit req project p body image (ok repo) s =
    let d = new_deployment req p body image in commit req project repo d (insert d s.deployments) s

unfoldable pub create_deployment :
    Limits
    → Request
    → Project
    → Reply (Option Repo)
    → RowId
    → Body
    → Text
    → Store
    → Reply Deployment × Store
unfolding create_checks new_deployment deploy_message bind_project queue_deployment insert
create_deployment l req project answer p body image s =
    submit req project p body image (create_checks l req project answer p s) s
