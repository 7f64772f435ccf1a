-- ===== src/Api/Webhooks/Previews/Events.antt =====
-- What the GitHub App's webhook leaves, whatever is sent to it.
use ship_zen_gcp.Prelude.{
  ℕ, ◌≡◌, refl, sym, ap, ◌∙◌, Bool, true, false, ◌&&◌, List, [], ◌∷◌, ◌++◌, Text, text_eq,
  text_eq→eq, text_eq_refl, any, filter, ◌==◌, Option, none, some, codes, Bool-cases, inl, inr, ◌⊎◌,
  arith,
}
use ship_zen_gcp.Database.{RowId, Deployment, Project, is_production}
use ship_zen_gcp.Api.Store.{Store, Request, Reply, ok, http}
use ship_zen_gcp.Api.Ensures.{Ensures, by_ok, by_guard, by_required, by_if}
use ship_zen_gcp.Api.Limits.{Limits}
use ship_zen_gcp.Api.Create.{is_active}
use ship_zen_gcp.Api.Webhooks.{PushEvent, Delivery, Hmac, event_row, start_deployment}
use ship_zen_gcp.Api.Webhooks.Starting.{by_start}
use ship_zen_gcp.Api.Webhooks.Growing.{Grown, Grown-refl, Grown-Started, all-filter-witnessed}
use ship_zen_gcp.Api.Webhooks.Push.{given, is_signed, target_branch}
use ship_zen_gcp.Api.Webhooks.Push.Signed.{given→eq}
use ship_zen_gcp.Api.Webhooks.App.{
  Turn, follows, app_row, app_deploy, push_to_all, has_url, app_push, EventName, push, pull_request,
  other_event, is_handled, verify, app_checks,
}
use ship_zen_gcp.Api.Webhooks.App.Turns.{OnSome, each_project-keeps}
use ship_zen_gcp.Api.Webhooks.Previews.{
  PullRequest, is_close, nonzero, act_on, with_ids, has_previews, close_previews,
  handle_pull_request, on_event, if_verified, github_app_webhook,
}
use ship_zen_gcp.Api.Webhooks.Previews.Grown.{is_queued, is_preview_for, handle_pull_request-Grown}

-- The project follows the branch of the push, and this is the branch.
abbrev pub follower : PushEvent → RowId → Text → Project → Bool
follower event p branch r = r.id == p && follows event r && text_eq (target_branch r) branch

abbrev pub from_clone : Option Text → Text → Bool
from_clone none url = false
from_clone (some c) url = text_eq c url

-- A queued production deployment of the branch of a project that follows it, from the pushed clone URL.
pub is_push_of : PushEvent → List Project → Deployment → Bool
is_push_of event ps d =
    any (follower event d.project d.branch) ps
    && is_queued d.state
    && is_production d.kind
    && from_clone event.clone_url d.repo_url

module _ (l : Limits) (turn : RowId → Turn) (event : PushEvent) (s : Store) where
  abbrev passes : Deployment → Bool
  passes = is_push_of event s.projects

  follows_self :
      (q : Project) → follows event q ≡ true → follower event q.id (target_branch q) q ≡ true
  follows_self q h = ground (arith, h, text_eq_refl (target_branch q))

  app_row-Grown :
      (t : Turn) (q : Project) (url : Text) (now : Store)
      → from_clone event.clone_url url ≡ true
      → any (follower event q.id (target_branch q)) s.projects ≡ true
      → Grown passes s now
      → OnSome
          (Grown passes s)
          (start_deployment t.request.committed (app_row t url q now.deployments) now)
  unfolding app_row event_row is_push_of is_production
  app_row-Grown t q url now from h g =
      by_start (OnSome (Grown passes s)) t.request.committed d now tt
        (λ after started. Grown-Started passes s now after d g started (ground (arith, h, from)))
    where
      d : Deployment
      d = app_row t url q now.deployments

  app_deploy-Grown :
      (t : Turn) (q : Project) (now : Store)
      → any (follower event q.id (target_branch q)) s.projects ≡ true
      → Grown passes s now
      → OnSome (Grown passes s) (app_deploy t event.clone_url q now)
  unfolding app_deploy
  app_deploy-Grown t q now h g = from event.clone_url refl
    where
      from :
          (url : Option Text)
          → event.clone_url ≡ url
          → OnSome (Grown passes s) (app_deploy t url q now)
      from none e = tt
      from (some url) e = elim (Bool-cases (any (is_active q.id) now.deployments)) [
        | inl f ↦ rw f tt
        | inr f ↦ rw f (app_row-Grown t q url now (rw e (text_eq_refl url)) h g)
      ]

  push_to_all-Grown : (b : Bool) → Grown passes s (push_to_all l turn b event s).1
  push_to_all-Grown true =
      each_project-keeps (Grown passes s) l turn (λ t. app_deploy t event.clone_url)
        (λ q. any (follower event q.id (target_branch q)) s.projects) app_deploy-Grown
        (filter (follows event) s.projects)
        (all-filter-witnessed (follows event) (λ q. follower event q.id (target_branch q))
          follows_self s.projects)
        s (Grown-refl passes s)
  push_to_all-Grown false = Grown-refl passes s

  app_push-Grown : (queried : Bool) → Grown passes s (app_push l turn queried event s).1
  unfolding app_push
  app_push-Grown queried = elim (Bool-cases (has_url event)) [
    | inl e ↦ rw e (push_to_all-Grown queried)
    | inr e ↦ rw e (Grown-refl passes s)
  ]

handle_pull_request-outbox :
    (l : Limits) (turn : RowId → Turn) (req : Request) (pr : PullRequest) (s : Store)
    → is_close pr.action ≡ true
    → (handle_pull_request l turn req pr s).1.outbox ≡ s.outbox
unfolding handle_pull_request close_previews
handle_pull_request-outbox l turn req pr s closes = with pr.number (nonzero pr.base_repo)
  where
    acted : (qs : List Project) (n : ℕ) → (act_on l turn req pr qs n s).1.outbox ≡ s.outbox
    acted [] n = refl
    acted (q ∷ qs) n =
        rw closes (elim (Bool-cases req.committed) [ inl e ↦ rw e refl | inr e ↦ rw e refl ])

    with : (number base : Option ℕ) → (with_ids l turn req pr number base s).1.outbox ≡ s.outbox
    with none base = refl
    with (some n) none = refl
    with (some n) (some base) = elim (Bool-cases req.queried) [
      | inl e ↦ rw e (acted (filter (has_previews base) s.projects) n)
      | inr e ↦ rw e refl
    ]

module _ (l : Limits) (hmac : Hmac) (app_secret : Option Text) (turn : RowId → Turn) (req : Request)
    (d : Delivery) (s : Store) where
  -- The signature is the HMAC of the body under the App's secret.
  abbrev pub Verified : Type 0
  Verified =
      (secret : Text) × (app_secret ≡ some secret)
      × (d.signature ≡ some (codes "sha256=" ++ hmac secret d.body))

  abbrev OnVerified : Option (Unit {0}) → Type 0
  OnVerified none = Unit
  OnVerified (some u) = Verified

  verify-Verified :
      (header : Text)
      → d.signature ≡ some header
      → Ensures OnVerified (verify hmac app_secret d header)
  unfolding verify is_signed
  verify-Verified header sent = by_required (given app_secret) 500 _ λ secret is.
      by_guard _ _ _ λ match.
        by_ok (some tt) (secret, given→eq _ _ is, sent ∙ ap some (sym (text_eq→eq _ _ match)))

  app_checks-Verified : (e : EventName) → Ensures OnVerified (app_checks hmac app_secret e d)
  unfolding app_checks
  app_checks-Verified e = by_required (given d.signature) 400 _ λ header sent.
      by_if (is_handled e) _ _ (λ _. verify-Verified header (given→eq _ _ sent)) (by_ok none tt)

  -- What a verified event leaves, by its decoded payload.
  abbrev pub Left : EventName → Option PushEvent → Option PullRequest → Store → Type 0
  Left push (some event) pr after = Grown (is_push_of event s.projects) s after
  Left push none pr after = after ≡ s
  Left pull_request event (some pr) after =
      Grown (is_preview_for pr.number (nonzero pr.base_repo) pr s.projects) s after
      ⊎ (is_close pr.action ≡ true) × (after.outbox ≡ s.outbox)
  Left pull_request event none after = after ≡ s
  Left other_event event pr after = after ≡ s

  on_event-Left :
      (e : EventName) (event : Option PushEvent) (pr : Option PullRequest)
      → Left e event pr (on_event l turn req e event pr s).1
  on_event-Left push (some event) pr = app_push-Grown l turn event s req.queried
  on_event-Left push none pr = refl
  on_event-Left pull_request event (some pr) = elim (Bool-cases (is_close pr.action)) [
    | inl e ↦ inr (e, handle_pull_request-outbox l turn req pr s e)
    | inr e ↦ inl (handle_pull_request-Grown l turn req pr s e)
  ]
  on_event-Left pull_request event none = refl
  on_event-Left other_event event pr = refl

  if_verified-Left :
      (e : EventName) (event : Option PushEvent) (pr : Option PullRequest)
      (r : Reply (Option (Unit {0}))) (x : Reply (List RowId) × Store)
      → Ensures OnVerified r
      → Left e event pr x.1
      → ((if_verified r x s).1 ≡ s) ⊎ Verified × Left e event pr (if_verified r x s).1
  if_verified-Left e event pr (http n) x v h = inl refl
  if_verified-Left e event pr (ok none) x v h = inl refl
  if_verified-Left e event pr (ok (some u)) x v h = inr (v.holds, h)

  -- Whatever is sent to the App's webhook, nothing changes; or the signature is the HMAC of the body
  -- under the App's secret, and: a push adds only queued production deployments, each with one message,
  -- for projects that follow the pushed branch and repository, from the pushed clone URL; a pull
  -- request adds only previews of it for projects of its repository, none for a branch of another
  -- repository; the closing of one sends no message.
  pub github_app_webhook-Left :
      (push_of : Text → Option PushEvent) (pull_of : Text → Option PullRequest) (e : EventName)
      → ((github_app_webhook l hmac app_secret push_of pull_of turn req e d s).1 ≡ s)
        ⊎ Verified
          × Left e
              (push_of d.body)
              (pull_of d.body)
              (github_app_webhook l hmac app_secret push_of pull_of turn req e d s).1
  unfolding github_app_webhook
  github_app_webhook-Left push_of pull_of e =
      if_verified-Left e (push_of d.body) (pull_of d.body) (app_checks hmac app_secret e d)
        (on_event l turn req e (push_of d.body) (pull_of d.body) s) (app_checks-Verified e)
        (on_event-Left e (push_of d.body) (pull_of d.body))
