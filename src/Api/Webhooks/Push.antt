-- ===== src/Api/Webhooks/Push.antt =====
-- api/routers/webhooks.py: `github_webhook`, the receiver of one project's push events.
pub mod Signed
use ship_zen_gcp.Prelude.{
  ℕ, Bool, true, false, not, ◌&&◌, ◌||◌, List, [], ◌∷◌, ◌++◌, Text, Option, none, some, any, filter,
  ◌==◌, if◌then◌else◌, get_or, codes, text_eq,
}
use ship_zen_gcp.Database.{RowId, production, Deployment, Project}
use ship_zen_gcp.Api.Store.{Store, Request, Reply, ok, http, ◌>>=◌, ◌>>◌, guard, required}
use ship_zen_gcp.Api.Access.{find_project}
use ship_zen_gcp.Api.Limits.{Limits, check_project_limits}
use ship_zen_gcp.Api.Create.{is_active}
use ship_zen_gcp.Api.Webhooks.{PushEvent, Delivery, Hmac, latest, event_row, start_deployment}

-- A text that is there and not empty.
abbrev pub given : Option Text → Option Text
given none = none
given (some []) = none
given (some (c ∷ cs)) = some (c ∷ cs)

-- `row.get("branch") or "main"`
abbrev pub target_branch : Project → Text
target_branch q = get_or (given q.branch) (codes "main")

-- `bound_repo_id and str(payload id) != str(bound_repo_id)`: a missing id is written "None".
abbrev pub pushes_bound : Option ℕ → Option ℕ → Bool
pushes_bound none pushed = true
pushes_bound (some b) none = b == 0
pushes_bound (some b) (some r) = b == 0 || b == r

-- The secret that signs, decrypted.
abbrev pub signing_secret : (Text → Option Text) → Project → Reply Text
signing_secret decrypt q = do
  stored ← required (given q.webhook_secret) 404
  required (decrypt stored) 500

unfoldable pub is_signed : Hmac → Text → Delivery → Text → Bool
is_signed hmac secret d header = text_eq (codes "sha256=" ++ hmac secret d.body) header

-- What a push asks to deploy.
pub record Wanted : Type 0 where
  pub url : Text
  pub branch : Text

unfoldable pub deployable :
    Limits → Request → RowId → Store → Project → PushEvent → Reply (Option Wanted)
unfolding check_project_limits
deployable l req p s q event = do
  url ← required (given event.clone_url) 400
  guard (pushes_bound q.github_repo_id event.repository_id) 403
  check_project_limits l req p s
  ok (some (record { url = url; branch = target_branch q }))

-- The checks of the event: `none` is an event that is ignored.
unfoldable pub wanted :
    Limits → Request → RowId → Store → Project → PushEvent → Reply (Option Wanted)
unfolding deployable
wanted l req p s q event =
    if text_eq event.ref (codes "refs/heads/" ++ target_branch q)
    then deployable l req p s q event
    else ok none

-- The checks of the project and the signature, and then of the event.
unfoldable pub authentic :
    Limits
    → Hmac
    → (Text → Option Text)
    → (Text → Option PushEvent)
    → Request
    → RowId
    → Delivery
    → Text
    → Store
    → Reply (Option Wanted)
unfolding is_signed wanted find_project
authentic l hmac decrypt json req p d header s = do
  guard req.queried 500
  q ← required (find_project p s.projects) 404
  secret ← signing_secret decrypt q
  guard (is_signed hmac secret d header) 401
  event ← required (json d.body) 400
  wanted l req p s q event

unfoldable pub push_checks :
    Limits
    → Hmac
    → (Text → Option Text)
    → (Text → Option PushEvent)
    → Request
    → RowId
    → Bool
    → Delivery
    → Store
    → Reply (Option Wanted)
unfolding authentic
push_checks l hmac decrypt json req p is_push d s = do
  header ← required (given d.signature) 400
  if is_push then authentic l hmac decrypt json req p d header s else ok none

-- The project's last deployment, of any kind, must be of the same repository, and gives the port.
abbrev pub same_repo : Text → Option Deployment → Bool
same_repo url none = true
same_repo url (some e) = text_eq e.repo_url url

abbrev pub last_port : Option Deployment → Option ℕ
last_port none = some 8080
last_port (some e) = e.port

abbrev pub triggered : Deployment → Option Store → Store → Reply (Option Deployment) × Store
triggered d none s = (http 500, s)
triggered d (some after) s = (ok (some d), after)

unfoldable pub push_row : Request → RowId → Text → Wanted → Option Deployment → Store → Deployment
unfolding event_row
push_row req p image w last s =
    event_row req p production none w.url image (last_port last) w.branch s.deployments

-- The transaction.
unfoldable pub push_deploy :
    Request → RowId → Text → Wanted → Store → Reply (Option Deployment) × Store
unfolding is_active latest push_row start_deployment
push_deploy req p image w s =
    let last = latest (λ d. d.updated_at) (filter (λ d. d.project == p) s.deployments) in
    let d = push_row req p image w last s in
    if any (is_active p) s.deployments
    then (ok none, s)
    else if same_repo w.url last
    then triggered d (start_deployment req.committed d s) s
    else (http 403, s)

abbrev pub after_checks :
    Request → RowId → Text → Reply (Option Wanted) → Store → Reply (Option Deployment) × Store
after_checks req p image (http n) s = (http n, s)
after_checks req p image (ok none) s = (ok none, s)
after_checks req p image (ok (some w)) s = push_deploy req p image w s

-- `ok none` is an event that is ignored, with status 200.
unfoldable pub github_webhook :
    Limits
    → Hmac
    → (Text → Option Text)
    → (Text → Option PushEvent)
    → Request
    → RowId
    → Text
    → Bool
    → Delivery
    → Store
    → Reply (Option Deployment) × Store
unfolding push_checks push_deploy
github_webhook l hmac decrypt json req p image is_push d s =
    after_checks req p image (push_checks l hmac decrypt json req p is_push d s) s
