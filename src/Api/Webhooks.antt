-- ===== src/Api/Webhooks.antt =====
-- api/routers/webhooks.py: what its three receivers share. The HMAC, the JSON decoder and the names of
-- images are arguments; the commit columns are left out.
pub mod Starting
pub mod Push
pub mod App
pub mod Growing
pub mod Previews
use ship_zen_gcp.Prelude.{
  ℕ, Bool, true, false, not, ◌&&◌, ◌||◌, List, [], ◌∷◌, ◌++◌, Text, Option, none, some, any, filter,
  leb, ◌==◌, if◌then◌else◌, is_some, get_or, codes,
}
use ship_zen_gcp.Database.{RowId, queued, Kind, production, Deployment, is_production}
use ship_zen_gcp.Database.Index.{insert}
use ship_zen_gcp.Api.Store.{Store, Payload, Request, Reply, ok, http, queue_deployment}

-- `payload` of a push event, with the fields that the code reads.
pub record PushEvent : Type 0 where
  pub ref : Text
  pub repository_id : Option ℕ
  pub clone_url : Option Text
  pub html_url : Option Text

-- What both signed receivers are given: the headers and the body.
pub record Delivery : Type 0 where
  pub signature : Option Text
  pub body : Text

-- `hmac.compare_digest(f"sha256={expected_mac}", signature_header)`
abbrev pub Hmac : Type 0
Hmac = Text → Text → Text

-- `ORDER BY <column> DESC LIMIT 1`. Which of two rows of one instant comes first is not promised by the
-- database.
later_row : (Deployment → ℕ) → Deployment → Option Deployment → Deployment
later_row column d none = d
later_row column d (some e) = if leb (column e) (column d) then d else e

unfoldable pub latest : (Deployment → ℕ) → List Deployment → Option Deployment
unfolding later_row
latest column [] = none
latest column (d ∷ ds) = some (later_row column d (latest column ds))

-- `SELECT build_context ... WHERE project_id = %s AND kind = 'production' AND build_context IS NOT NULL
-- ORDER BY created_at DESC LIMIT 1`
abbrev context_of : Option Deployment → Option Text
context_of none = none
context_of (some d) = d.build_context

unfoldable pub last_context : RowId → List Deployment → Option Text
unfolding latest is_production
last_context p ds = context_of (
    latest (λ d. d.created_at)
      (filter (λ d. d.project == p && is_production d.kind && is_some d.build_context) ds))

-- The row of a deployment that an event starts.
unfoldable pub event_row :
    Request → RowId → Kind → Option ℕ → Text → Text → Option ℕ → Text → List Deployment → Deployment
unfolding last_context
event_row req p kind number url image port branch rows = record {
  id = req.fresh;
  project = p;
  state = queued;
  kind = kind;
  pr_number = number;
  repo_url = url;
  branch = branch;
  image_uri = image;
  image_digest = none;
  build_context = last_context p rows;
  replicas = some 1;
  port = port;
  health_check_path = some (codes "/");
  created_at = req.now;
  updated_at = req.now;
  scale_down_after = none;
  last_error = none;
}

-- The message has no build folder: the worker reads that of the row.
unfoldable pub event_message : Deployment → Payload
event_message d = record {
  deployment_id = d.id;
  project_id = d.project;
  repo_url = d.repo_url;
  branch = d.branch;
  image_name = d.image_uri;
  build_context = [];
  is_rollback = false;
}

-- The end of the transaction: the row and its message, or nothing.
abbrev pub inserted : Bool → Deployment → Option (List Deployment) → Store → Option Store
inserted committed d none s = none
inserted committed d (some rows) s =
    if committed
    then some (queue_deployment (event_message d) (record s { deployments = rows }))
    else none

unfoldable pub start_deployment : Bool → Deployment → Store → Option Store
unfolding insert event_message queue_deployment
start_deployment committed d s = inserted committed d (insert d s.deployments) s
