-- ===== src/Api/Webhooks/Previews.antt =====
-- api/routers/webhooks.py: `_handle_pull_request`, previews of open pull requests, and
-- `github_app_webhook` whole.
pub mod Distinct
pub mod Capped
pub mod Grown
pub mod Events
use ship_zen_gcp.Prelude.{
  ℕ, zero, suc, ◌+◌, Bool, true, false, not, ◌&&◌, ◌||◌, List, [], ◌∷◌, ◌++◌, Text, Option, none,
  some, any, filter, length, ltb, leb, ◌==◌, if◌then◌else◌, is_some, get_or,
}
use ship_zen_gcp.Database.{
  RowId, State, running, failed, superseded, Kind, production, preview, Deployment, Status, ready,
  Project, in_flight, is_running, is_production, same_id,
}
use ship_zen_gcp.Database.Index.{same_number}
use ship_zen_gcp.Database.Statements.{update}
use ship_zen_gcp.Api.Store.{Store, Request, Reply, ok, http}
use ship_zen_gcp.Api.Limits.{Limits}
use ship_zen_gcp.Api.Webhooks.{PushEvent, Delivery, Hmac, latest, event_row, start_deployment}
use ship_zen_gcp.Api.Webhooks.Push.{given}
use ship_zen_gcp.Api.Webhooks.App.{
  Turn, each_project, app_push, EventName, push, pull_request, other_event, app_checks,
}

pub data PullAction : Type 0 where
  opened synchronize reopened closed other_action : PullAction

-- `pull_request` of the payload, with the fields that the code reads.
pub record PullRequest : Type 0 where
  pub action : PullAction
  pub number : Option ℕ
  pub base_repo : Option ℕ
  pub head_repo : Option ℕ
  pub sha : Option Text
  pub ref : Option Text

-- MAX_PREVIEWS_PER_PROJECT
abbrev pub max_previews : ℕ
max_previews = 3

-- `_PR_BUILD_ACTIONS`
abbrev pub starts_build : PullAction → Bool
starts_build opened = true
starts_build synchronize = true
starts_build reopened = true
starts_build a = false

-- A number that is there and not 0.
abbrev pub nonzero : Option ℕ → Option ℕ
nonzero none = none
nonzero (some zero) = none
nonzero (some (suc n)) = some (suc n)

abbrev is_ready : Status → Bool
is_ready ready = true
is_ready s = false

-- `WHERE github_repo_id = %s AND deleted_at IS NULL AND status = 'Ready'`
unfoldable pub has_previews : ℕ → Project → Bool
has_previews base q = same_number q.github_repo_id (some base) && not q.deleted && is_ready q.status

-- `kind = 'preview' AND pr_number = %s`
unfoldable pub is_preview_of : ℕ → Deployment → Bool
unfolding is_production
is_preview_of n d = not (is_production d.kind) && same_number d.pr_number (some n)

-- `state IN ('Running', 'Failed')`
abbrev is_ended : State → Bool
is_ended running = true
is_ended failed = true
is_ended s = false

-- `project_id = ANY(%s) AND kind = 'preview' AND pr_number = %s AND state IN (...)`
unfoldable pub is_closed_by : List Project → ℕ → Deployment → Bool
unfolding is_preview_of
is_closed_by qs n d = any (λ q. q.id == d.project) qs && is_preview_of n d && is_ended d.state

unfoldable pub close_previews : ℕ → List Project → ℕ → Store → Store
unfolding update is_closed_by
close_previews now qs n s = record s {
  deployments =
      update (is_closed_by qs n) (λ d. record d { state = superseded; updated_at = now })
        s.deployments;
}

-- `_ACTIVE`: a preview that counts for the cap.
unfoldable pub holds_preview : RowId → Deployment → Bool
unfolding in_flight is_running is_production
holds_preview p d =
    d.project == p && not (is_production d.kind) && (in_flight d.state || is_running d.state)

-- `pr_number <> %s`, which NULL does not pass.
abbrev pub other_number : ℕ → ℕ → Bool
other_number n m = not (m == n)

-- The pull requests that have a preview of the project, row by row; NULL is not counted.
abbrev pub add_number : Bool → Option ℕ → List ℕ → List ℕ
add_number true (some m) ms = m ∷ ms
add_number true none ms = ms
add_number false m ms = ms

unfoldable pub numbers : RowId → List Deployment → List ℕ
unfolding holds_preview
numbers p [] = []
numbers p (d ∷ ds) = add_number (holds_preview p d) d.pr_number (numbers p ds)

-- `count(DISTINCT ...)`
unfoldable pub count_distinct : List ℕ → ℕ
count_distinct [] = 0
count_distinct (m ∷ ms) = (if any (λ k. k == m) ms then 0 else 1) + count_distinct ms

-- `state IN ('Queued', 'Building', 'Deploying', 'Verifying')` of the same pull request.
unfoldable pub is_building : RowId → ℕ → Deployment → Bool
unfolding in_flight is_preview_of
is_building p n d = d.project == p && is_preview_of n d && in_flight d.state

-- The port of the newest production deployment, unless it is NULL or 0.
abbrev port_of : Option Deployment → ℕ
port_of none = 8080
port_of (some d) = get_or (nonzero d.port) 8080

unfoldable pub preview_row : Turn → Text → ℕ → Text → Project → List Deployment → Deployment
unfolding latest event_row is_production
preview_row t url n ref q rows =
    event_row t.request q.id preview (some n) url t.image
      (some (
        port_of (
          latest (λ d. d.created_at)
            (filter (λ d. d.project == q.id && is_production d.kind) rows))))
      ref rows

-- The transaction of one project; `none` is a project that is skipped. A row needs a URL.
abbrev pub preview_deploy_of : Turn → Option Text → ℕ → Text → Project → Store → Option Store
preview_deploy_of t none n ref q s = none
preview_deploy_of t (some url) n ref q s =
    start_deployment t.request.committed (preview_row t url n ref q s.deployments) s

unfoldable pub preview_deploy : ℕ → Text → Turn → Project → Store → Option Store
unfolding is_building numbers count_distinct preview_row start_deployment
preview_deploy n ref t q s =
    if any (is_building q.id n) s.deployments
    then none
    else if leb max_previews (count_distinct (filter (other_number n) (numbers q.id s.deployments)))
    then none
    else preview_deploy_of t q.repo_url n ref q s

-- The commit to build: `none` if the payload does not name it.
abbrev ref_of : Option Text → Option Text → Option Text
ref_of none ref = none
ref_of (some sha) ref = if leb (length sha) 40 then given ref else none

-- `head_repo.get("id") == base_repo.get("id")`
abbrev pub same_repository : PullRequest → Bool
same_repository pr = same_id pr.head_repo pr.base_repo

abbrev pub is_close : PullAction → Bool
is_close closed = true
is_close a = false

abbrev pub build_previews :
    Limits → (RowId → Turn) → List Project → ℕ → Option Text → Store → Reply (List RowId) × Store
build_previews l turn qs n none s = (ok [], s)
build_previews l turn qs n (some ref) s = each_project l turn (preview_deploy n ref) qs s

-- With the projects of the repository. A pull request from another repository is never built.
abbrev pub act_on :
    Limits
    → (RowId → Turn)
    → Request
    → PullRequest
    → List Project
    → ℕ
    → Store
    → Reply (List RowId) × Store
act_on l turn req pr [] n s = (ok [], s)
act_on l turn req pr (q ∷ qs) n s =
    if is_close pr.action
    then (if req.committed then (ok [], close_previews req.now (q ∷ qs) n s) else (http 500, s))
    else if starts_build pr.action && same_repository pr
    then build_previews l turn (q ∷ qs) n (ref_of pr.sha pr.ref) s
    else (ok [], s)

abbrev pub with_ids :
    Limits
    → (RowId → Turn)
    → Request
    → PullRequest
    → Option ℕ
    → Option ℕ
    → Store
    → Reply (List RowId) × Store
with_ids l turn req pr none base s = (ok [], s)
with_ids l turn req pr (some n) none s = (ok [], s)
with_ids l turn req pr (some n) (some base) s =
    if req.queried
    then act_on l turn req pr (filter (has_previews base) s.projects) n s
    else (http 500, s)

unfoldable pub handle_pull_request :
    Limits → (RowId → Turn) → Request → PullRequest → Store → Reply (List RowId) × Store
unfolding has_previews close_previews preview_deploy each_project same_id
handle_pull_request l turn req pr s = with_ids l turn req pr pr.number (nonzero pr.base_repo) s

-- After the checks, by the event.
abbrev pub on_event :
    Limits
    → (RowId → Turn)
    → Request
    → EventName
    → Option PushEvent
    → Option PullRequest
    → Store
    → Reply (List RowId) × Store
on_event l turn req push (some event) pr s = app_push l turn req.queried event s
on_event l turn req push none pr s = (http 400, s)
on_event l turn req pull_request event (some pr) s = handle_pull_request l turn req pr s
on_event l turn req pull_request event none s = (http 400, s)
on_event l turn req other_event event pr s = (ok [], s)

abbrev pub if_verified :
    Reply (Option (Unit {0})) → Reply (List RowId) × Store → Store → Reply (List RowId) × Store
if_verified (http n) r s = (http n, s)
if_verified (ok none) r s = (ok [], s)
if_verified (ok (some u)) r s = r

-- The body is decoded as the event that the header names; `ok []` is an event that is ignored.
unfoldable pub github_app_webhook :
    Limits
    → Hmac
    → Option Text
    → (Text → Option PushEvent)
    → (Text → Option PullRequest)
    → (RowId → Turn)
    → Request
    → EventName
    → Delivery
    → Store
    → Reply (List RowId) × Store
unfolding app_checks app_push handle_pull_request
github_app_webhook l hmac app_secret push_of pull_of turn req e d s =
    if_verified (app_checks hmac app_secret e d)
      (on_event l turn req e (push_of d.body) (pull_of d.body) s) s
