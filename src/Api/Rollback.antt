-- ===== src/Api/Rollback.antt =====
-- api/routers/deployments.py: `rollback_deployment`, up to the commit.
pub mod Target
pub mod Instant
pub mod Queued
use ship_zen_gcp.Prelude.{
  ℕ, ◌+◌, Bool, true, false, not, ◌&&◌, List, [], ◌∷◌, Text, Option, none, some, find?, filter,
  text_eq, ◌==◌, codes, if◌then◌else◌,
}
use ship_zen_gcp.Database.{RowId, queued, production, Deployment, Project, is_up, same_id}
use ship_zen_gcp.Database.Index.{insert}
use ship_zen_gcp.Database.Statements.{update, newest_first}
use ship_zen_gcp.Controller.Release.{is_release, set_live}
use ship_zen_gcp.Api.Store.{Store, Payload, Request, Reply, ok, http, queue_deployment}

abbrev pub first : List Deployment → Option Deployment
first [] = none
first (d ∷ ds) = some d

abbrev pub or_first : Option Deployment → List Deployment → Option Deployment
or_first none ds = first ds
or_first (some d) ds = some d

-- `... AND state = 'Running' AND replicas > 0`
unfoldable pub is_up_release : RowId → Deployment → Bool
unfolding is_release is_up
is_up_release p d = is_release p d && is_up d.replicas

-- `ORDER BY (deployment_id = live) DESC, created_at DESC LIMIT 1`: the row that the project points at,
-- or else the newest.
unfoldable pub live_release : RowId → Option RowId → List Deployment → Option Deployment
unfolding is_up_release same_id newest_first
live_release p pointer rows =
    let up = filter (is_up_release p) rows in
    or_first (find? (λ d. same_id (some d.id) pointer) up) (newest_first up)

-- `deployment_id IS DISTINCT FROM %s AND image_uri IS DISTINCT FROM %s`, with NULL without a live
-- release. An image is not NULL.
unfoldable pub differs : Option Deployment → Deployment → Bool
differs none d = true
differs (some live) d = not (d.id == live.id) && not (text_eq d.image_uri live.image_uri)

unfoldable pub is_candidate : RowId → Option Deployment → Deployment → Bool
unfolding is_release differs
is_candidate p live d = is_release p d && differs live d

-- `last_good`: the newest other release with another image.
unfoldable pub last_good : RowId → Option Deployment → List Deployment → Option Deployment
unfolding is_candidate newest_first
last_good p live rows = first (newest_first (filter (is_candidate p live) rows))

-- The release left behind gets a grace period.
abbrev pub leave : ℕ → Option Deployment → List Deployment → List Deployment
leave until none rows = rows
leave until (some live) rows =
    update (λ d. d.id == live.id) (λ d. record d { scale_down_after = some until }) rows

-- A release that still runs is made live again at once.
unfoldable pub switch_back : ℕ → ℕ → RowId → Option Deployment → Deployment → Store → Store
unfolding set_live update
switch_back now grace p live good s = record s {
  projects = set_live p (some good.id) s.projects;
  deployments =
      leave (now + grace) live
        (update (λ d. d.id == good.id) (λ d. record d { scale_down_after = none }) s.deployments);
}

-- The columns that the INSERT names; the others have their defaults.
unfoldable pub rollback_row : Request → RowId → Deployment → Deployment
rollback_row req p good = record {
  id = req.fresh;
  project = p;
  state = queued;
  kind = production;
  pr_number = none;
  repo_url = good.repo_url;
  branch = good.branch;
  image_uri = good.image_uri;
  image_digest = good.image_digest;
  build_context = none;
  replicas = some 1;
  port = good.port;
  health_check_path = some (codes "/");
  created_at = req.now;
  updated_at = req.now;
  scale_down_after = none;
  last_error = none;
}

-- `last_good.get('branch') or "main"`, with the empty branch for NULL.
abbrev branch_or_main : Text → Text
branch_or_main [] = codes "main"
branch_or_main (c ∷ cs) = c ∷ cs

unfoldable pub rollback_message : Deployment → Payload
rollback_message d = record {
  deployment_id = d.id;
  project_id = d.project;
  repo_url = d.repo_url;
  branch = branch_or_main d.branch;
  image_name = d.image_uri;
  build_context = [];
  is_rollback = true;
}

-- What is returned: the deployment that is, or will be, live, and whether at once.
pub record RolledBack : Type 0 where
  pub deployment : RowId
  pub instant : Bool

-- A UniqueViolation is not caught: the server answers 500.
abbrev pub queue_rollback :
    Request → Deployment → Option (List Deployment) → Store → Reply RolledBack × Store
queue_rollback req d none s = (http 500, s)
queue_rollback req d (some rows) s =
    if req.committed
    then (
      ok (record { deployment = d.id; instant = false }),
      queue_deployment (rollback_message d) (record s { deployments = rows }),
    )
    else (http 500, s)

abbrev pub roll_back_to :
    Request → ℕ → RowId → Option Deployment → Option Deployment → Store → Reply RolledBack × Store
roll_back_to req grace p live none s = (http 409, s)
roll_back_to req grace p live (some good) s =
    if is_up good.replicas
    then (if req.committed
        then (
          ok (record { deployment = good.id; instant = true }),
          switch_back req.now grace p live good s,
        )
        else (http 500, s))
    else (let d = rollback_row req p good in queue_rollback req d (insert d s.deployments) s)

-- `pointer` is the project's `live_deployment_id`.
unfoldable pub rollback_deployment :
    Request → ℕ → RowId → Option RowId → Store → Reply RolledBack × Store
unfolding live_release last_good switch_back rollback_row rollback_message queue_deployment insert
    is_up
rollback_deployment req grace p pointer s =
    let live = live_release p pointer s.deployments in
    roll_back_to req grace p live (last_good p live s.deployments) s
