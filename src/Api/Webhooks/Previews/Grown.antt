-- ===== src/Api/Webhooks/Previews/Grown.antt =====
-- What a pull request event adds: previews of the project's own repository, and nothing for a fork.
use ship_zen_gcp.Prelude.{
  ℕ, ◌≡◌, refl, Bool, true, false, not, ◌&&◌, List, [], ◌∷◌, Text, text_eq, any, filter, leb, ◌==◌,
  Option, none, some, Bool-cases, inl, inr, arith, text_eq_refl,
}
use ship_zen_gcp.Database.{RowId, State, queued, Deployment, Project, is_production}
use ship_zen_gcp.Database.Index.{same_number}
use ship_zen_gcp.Api.Store.{Store, Request}
use ship_zen_gcp.Api.Limits.{Limits}
use ship_zen_gcp.Api.Webhooks.{event_row, start_deployment}
use ship_zen_gcp.Api.Webhooks.Starting.{by_start}
use ship_zen_gcp.Api.Webhooks.Growing.{Grown, Grown-refl, Grown-Started, all-filter-witnessed}
use ship_zen_gcp.Api.Webhooks.App.{Turn}
use ship_zen_gcp.Api.Webhooks.App.Turns.{OnSome, each_project-keeps}
use ship_zen_gcp.Api.Webhooks.Previews.{
  PullRequest, max_previews, nonzero, has_previews, other_number, numbers, count_distinct,
  is_building, preview_row, preview_deploy_of, preview_deploy, build_previews, starts_build,
  is_close, same_repository, ref_of, act_on, with_ids, handle_pull_request,
}

abbrev pub same_text : Option Text → Option Text → Bool
same_text none none = true
same_text (some a) (some b) = text_eq a b
same_text none (some b) = false
same_text (some a) none = false

same_text_refl : (o : Option Text) → same_text o o ≡ true
same_text_refl none = refl
same_text_refl (some t) = text_eq_refl t

-- The project is one that gives the repository previews, and has this URL.
abbrev pub gives : ℕ → Project → Option Text → Project → Bool
gives base q url r = r.id == q.id && has_previews base r && same_text r.repo_url url

gives_self :
    (base : ℕ) (q : Project) → has_previews base q ≡ true → gives base q q.repo_url q ≡ true
gives_self base q h = ground (arith, h, same_text_refl q.repo_url)

abbrev pub is_project : ℕ → Deployment → Project → Bool
is_project base d r =
    r.id == d.project && has_previews base r && same_text r.repo_url (some d.repo_url)

abbrev pub is_queued : State → Bool
is_queued queued = true
is_queued s = false

-- A queued preview of the pull request, for a project of its repository, from that project's own URL; the
-- event is one that builds, and the branch is of that repository too.
pub is_preview_for : Option ℕ → Option ℕ → PullRequest → List Project → Deployment → Bool
is_preview_for number none pr ps d = false
is_preview_for number (some base) pr ps d =
    any (is_project base d) ps
    && is_queued d.state
    && not (is_production d.kind)
    && same_number d.pr_number number
    && starts_build pr.action
    && same_repository pr

module _ (l : Limits) (turn : RowId → Turn) (pr : PullRequest) (s : Store) (n base : ℕ)
    (starts : (starts_build pr.action && same_repository pr) ≡ true) where
  abbrev passes : Deployment → Bool
  passes = is_preview_for (some n) (some base) pr s.projects

  started-Grown :
      (t : Turn) (url ref : Text) (q : Project) (now : Store)
      → any (gives base q (some url)) s.projects ≡ true
      → Grown passes s now
      → OnSome
          (Grown passes s)
          (start_deployment t.request.committed (preview_row t url n ref q now.deployments) now)
  unfolding preview_row event_row is_preview_for is_production
  started-Grown t url ref q now given g =
      by_start (OnSome (Grown passes s)) t.request.committed d now tt (λ after started.
        Grown-Started passes s now after d g started (ground (arith, given, starts)))
    where
      d : Deployment
      d = preview_row t url n ref q now.deployments

  preview_deploy-Grown :
      (ref : Text) (t : Turn) (q : Project) (now : Store)
      → any (gives base q q.repo_url) s.projects ≡ true
      → Grown passes s now
      → OnSome (Grown passes s) (preview_deploy n ref t q now)
  unfolding preview_deploy
  preview_deploy-Grown ref t q now given g =
      elim (Bool-cases (any (is_building q.id n) now.deployments)) [
        | inl e ↦ rw e tt
        | inr e ↦
            rw e
              (elim (Bool-cases (
                leb max_previews
                  (count_distinct (filter (other_number n) (numbers q.id now.deployments))))) [
                    | inl f ↦ rw f tt
                    | inr f ↦ rw f (with_url q.repo_url given)
                  ])
      ]
    where
      with_url :
          (url : Option Text)
          → any (gives base q url) s.projects ≡ true
          → OnSome (Grown passes s) (preview_deploy_of t url n ref q now)
      with_url none h = tt
      with_url (some url) h = started-Grown t url ref q now h g

  build_previews-Grown :
      (ref : Option Text)
      → Grown passes s (build_previews l turn (filter (has_previews base) s.projects) n ref s).1
  build_previews-Grown none = Grown-refl passes s
  build_previews-Grown (some ref) =
      each_project-keeps (Grown passes s) l turn (preview_deploy n ref)
        (λ q. any (gives base q q.repo_url) s.projects) (preview_deploy-Grown ref)
        (filter (has_previews base) s.projects)
        (all-filter-witnessed (has_previews base) (λ q r. gives base q q.repo_url r)
          (gives_self base) s.projects)
        s (Grown-refl passes s)

module _ (l : Limits) (turn : RowId → Turn) (req : Request) (pr : PullRequest) (s : Store)
    (stays_open : is_close pr.action ≡ false) where
  act_on-Grown :
      (n base : ℕ) (qs : List Project)
      → qs ≡ filter (has_previews base) s.projects
      → Grown (is_preview_for (some n) (some base) pr s.projects) s (act_on l turn req pr qs n s).1
  act_on-Grown n base [] h = Grown-refl _ s
  act_on-Grown n base (q ∷ qs) h =
      rw stays_open (elim (Bool-cases (starts_build pr.action && same_repository pr)) [
        | inl b ↦ rw (b, h) (build_previews-Grown l turn pr s n base b (ref_of pr.sha pr.ref))
        | inr b ↦ rw b (Grown-refl _ s)
      ])

  with_ids-Grown :
      (number base : Option ℕ)
      → Grown (is_preview_for number base pr s.projects) s (with_ids l turn req pr number base s).1
  with_ids-Grown none base = Grown-refl _ s
  with_ids-Grown (some n) none = Grown-refl _ s
  with_ids-Grown (some n) (some base) = elim (Bool-cases req.queried) [
    | inl e ↦ rw e (act_on-Grown n base (filter (has_previews base) s.projects) refl)
    | inr e ↦ rw e (Grown-refl _ s)
  ]

  -- An event of a pull request that is not its closing adds only queued rows of previews of that pull
  -- request, each with one message, for ready projects that are bound to its repository and from their
  -- own URL; and it adds none unless it opens, reopens or updates the pull request and the branch lies
  -- in that same repository: the code of a fork is never built. All else stays as it was.
  pub handle_pull_request-Grown :
      Grown
        (is_preview_for pr.number (nonzero pr.base_repo) pr s.projects)
        s
        (handle_pull_request l turn req pr s).1
  unfolding handle_pull_request
  handle_pull_request-Grown = with_ids-Grown pr.number (nonzero pr.base_repo)
