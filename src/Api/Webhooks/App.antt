-- ===== src/Api/Webhooks/App.antt =====
-- api/routers/webhooks.py: `github_app_webhook`, the receiver of the GitHub App for all projects, and
-- how it deploys a push to every project that follows the branch.
pub mod Turns
use ship_zen_gcp.Prelude.{
  ℕ, Bool, true, false, not, ◌&&◌, ◌||◌, List, [], ◌∷◌, ◌++◌, Text, Option, none, some, any, filter,
  ◌==◌, if◌then◌else◌, codes, text_eq, is_some,
}
use ship_zen_gcp.Database.{RowId, production, Deployment, Project}
use ship_zen_gcp.Api.Store.{Store, Request, Reply, ok, http, ◌>>=◌, ◌>>◌, guard, required}
use ship_zen_gcp.Api.Limits.{Limits, check_project_limits}
use ship_zen_gcp.Api.Create.{is_active}
use ship_zen_gcp.Api.Webhooks.{PushEvent, Delivery, Hmac, latest, event_row, start_deployment}
use ship_zen_gcp.Api.Webhooks.Push.{given, target_branch, pushes_bound, is_signed}

-- What the handling of one project meets: its request, whether its limits and its port can be read, and
-- the name of its image.
pub record Turn : Type 0 where
  pub request : Request
  pub port_read : Bool
  pub image : Text

-- `repo_url = %s`, which NULL never is.
abbrev pub same_url : Option Text → Option Text → Bool
same_url (some a) (some b) = text_eq a b
same_url none b = false
same_url (some a) none = false

-- The projects of the repository, by either URL, that follow the branch.
unfoldable pub follows : PushEvent → Project → Bool
follows event q =
    (same_url q.repo_url event.clone_url || same_url q.repo_url event.html_url)
    && not q.deleted
    && pushes_bound q.github_repo_id event.repository_id
    && text_eq event.ref (codes "refs/heads/" ++ target_branch q)

-- `SELECT port ... ORDER BY created_at DESC LIMIT 1`; 8080 without a row, or if the query fails.
abbrev newest_port : Bool → Option Deployment → Option ℕ
newest_port false last = some 8080
newest_port true none = some 8080
newest_port true (some d) = d.port

unfoldable pub app_row : Turn → Text → Project → List Deployment → Deployment
unfolding event_row latest
app_row t url q rows =
    event_row t.request q.id production none url t.image
      (newest_port t.port_read (latest (λ d. d.created_at) (filter (λ d. d.project == q.id) rows)))
      (target_branch q) rows

-- The transaction of one project; `none` is a project that is skipped. A row needs a URL.
unfoldable pub app_deploy : Turn → Option Text → Project → Store → Option Store
unfolding is_active app_row start_deployment
app_deploy t none q s = none
app_deploy t (some url) q s =
    if any (is_active q.id) s.deployments
    then none
    else start_deployment t.request.committed (app_row t url q s.deployments) s

-- A limit skips the project; an error of the database while it is read ends the request.
pub data Limited : Type 0 where
  free limited broken : Limited

abbrev pub limited_by : Bool → Reply (Unit {0}) → Limited
limited_by false r = broken
limited_by true (ok u) = free
limited_by true (http n) = limited

-- `created.append(deployment_id)`
abbrev pub add_id : RowId → Reply (List RowId) × Store → Reply (List RowId) × Store
add_id i (ok ids, s) = (ok (i ∷ ids), s)
add_id i (http n, s) = (http n, s)

abbrev pub after_turn :
    Limited
    → RowId
    → Option Store
    → Store
    → (Store → Reply (List RowId) × Store)
    → Reply (List RowId) × Store
after_turn broken i o s rest = (http 500, s)
after_turn limited i o s rest = rest s
after_turn free i none s rest = rest s
after_turn free i (some after) s rest = add_id i (rest after)

-- The loop over the projects that were found, each with the deployment that it starts, if any.
unfoldable pub each_project :
    Limits
    → (RowId → Turn)
    → (Turn → Project → Store → Option Store)
    → List Project
    → Store
    → Reply (List RowId) × Store
unfolding check_project_limits
each_project l turn start [] s = (ok [], s)
each_project l turn start (q ∷ qs) s =
    after_turn
      (limited_by (turn q.id).request.queried (check_project_limits l (turn q.id).request q.id s))
      (turn q.id).request.fresh (start (turn q.id) q s) s (each_project l turn start qs)

-- A push event: `ok []` is one that no project follows.
abbrev pub has_url : PushEvent → Bool
has_url event = is_some (given event.clone_url) || is_some (given event.html_url)

abbrev pub push_to_all :
    Limits → (RowId → Turn) → Bool → PushEvent → Store → Reply (List RowId) × Store
push_to_all l turn true event s =
    each_project l turn (λ t. app_deploy t event.clone_url) (filter (follows event) s.projects) s
push_to_all l turn false event s = (http 500, s)

unfoldable pub app_push :
    Limits → (RowId → Turn) → Bool → PushEvent → Store → Reply (List RowId) × Store
unfolding follows app_deploy each_project
app_push l turn queried event s =
    if has_url event then push_to_all l turn queried event s else (http 400, s)

-- `X-GitHub-Event`
pub data EventName : Type 0 where
  push pull_request other_event : EventName

abbrev pub is_handled : EventName → Bool
is_handled other_event = false
is_handled e = true

-- The checks before the payload is read: `none` is an event that is ignored.
unfoldable pub verify : Hmac → Option Text → Delivery → Text → Reply (Option (Unit {0}))
unfolding is_signed
verify hmac app_secret d header = do
  secret ← required (given app_secret) 500
  guard (is_signed hmac secret d header) 401
  ok (some tt)

unfoldable pub app_checks : Hmac → Option Text → EventName → Delivery → Reply (Option (Unit {0}))
unfolding verify
app_checks hmac app_secret e d = do
  header ← required (given d.signature) 400
  if is_handled e then verify hmac app_secret d header else ok none
