-- ===== src/Api/Webhooks/Previews/Capped.antt =====
-- The cap on previews.
use ship_zen_gcp.Prelude.{
  ℕ, ◌≤◌, ◌≡◌, refl, ap, Bool, true, false, ◌&&◌, List, [], ◌∷◌, ◌++◌, Text, any, all, filter, leb,
  Option, none, some, Bool-cases, inl, inr, arith,
}
use mathlib.Core.List.{append-nil}
use native.Mathlib.Nat.{le_trans}
use ship_zen_gcp.Database.{RowId, Deployment, superseded, Project, in_flight, is_running}
use ship_zen_gcp.Database.Statements.{update}
use ship_zen_gcp.Api.Store.{Store, Request, queue_deployment}
use ship_zen_gcp.Api.Limits.{Limits}
use ship_zen_gcp.Api.Webhooks.{event_row, start_deployment}
use ship_zen_gcp.Api.Webhooks.Starting.{by_start}
use ship_zen_gcp.Api.Webhooks.App.{Turn}
use ship_zen_gcp.Api.Webhooks.App.Turns.{OnSome, each_project-keeps}
use ship_zen_gcp.Api.Webhooks.Previews.{
  PullRequest, max_previews, nonzero, has_previews, is_closed_by, close_previews, holds_preview,
  numbers, count_distinct, add_number, is_building, preview_row, preview_deploy_of, preview_deploy,
  build_previews, starts_build, is_close, same_repository, ref_of, act_on, with_ids,
  handle_pull_request,
}
use ship_zen_gcp.Api.Webhooks.Previews.Distinct.{
  has, without, count_distinct-snoc, count_distinct_mono,
}

-- At most MAX_PREVIEWS_PER_PROJECT pull requests have a preview of the project that is being built or
-- runs.
abbrev pub Capped : RowId → List Deployment → Type 0
Capped p ds = count_distinct (numbers p ds) ≤ max_previews

numbers-append :
    (p : RowId) (d : Deployment) (ds : List Deployment)
    → numbers p (ds ++ d ∷ []) ≡ numbers p ds ++ add_number (holds_preview p d) d.pr_number []
unfolding numbers
numbers-append p d [] = refl
numbers-append p d (e ∷ ds) = rw (numbers-append p d ds) (shift (holds_preview p e) e.pr_number)
  where
    shift :
        (b : Bool) (o : Option ℕ)
        → add_number b o (numbers p ds ++ add_number (holds_preview p d) d.pr_number [])
          ≡ add_number b o (numbers p ds) ++ add_number (holds_preview p d) d.pr_number []
    shift true none = refl
    shift true (some m) = refl
    shift false o = refl

-- A new preview of pull request `n`, where at most two others have one.
added-Capped :
    (p : RowId) (n : ℕ) (d : Deployment) (ds : List Deployment)
    → d.pr_number ≡ some n
    → (holds_preview p d ≡ true
        → leb max_previews (count_distinct (without n (numbers p ds))) ≡ false)
    → Capped p ds
    → Capped p (ds ++ d ∷ [])
added-Capped p n d ds number room h =
    rw (numbers-append p d ds) (elim (Bool-cases (holds_preview p d)) [
      | inl e ↦ rw (e, number) (ground (arith, room e, count_distinct-snoc n (numbers p ds)))
      | inr e ↦ rw (e, append-nil) h
    ])

all-true : (qs : List Project) → all (λ _. true) qs ≡ true
all-true [] = refl
all-true (q ∷ qs) = all-true qs

-- Closing previews leaves fewer.
module _ (qs : List Project) (now n : ℕ) (p : RowId) where
  abbrev closing : List Deployment → List Deployment
  closing ds =
      update (is_closed_by qs n) (λ d. record d { state = superseded; updated_at = now }) ds

  fewer :
      (b c : Bool) (o : Option ℕ) (xs ys : List ℕ) (k : ℕ)
      → (c ≡ true → b ≡ true)
      → (has k xs ≡ true → has k ys ≡ true)
      → has k (add_number c o xs) ≡ true
      → has k (add_number b o ys) ≡ true
  fewer b c o xs ys k h i = ground arith

  closing-numbers :
      (ds : List Deployment) (k : ℕ)
      → has k (numbers p (closing ds)) ≡ true
      → has k (numbers p ds) ≡ true
  unfolding numbers update holds_preview in_flight is_running
  closing-numbers [] k = λ h. h
  closing-numbers (d ∷ ds) k = elim (Bool-cases (is_closed_by qs n d)) [
    | inl e ↦ rw e (
        fewer (holds_preview p d) (holds_preview p (superseded_row d)) d.pr_number
          (numbers p (closing ds)) (numbers p ds) k (gone d) (closing-numbers ds k))
    | inr e ↦ rw e (
        fewer (holds_preview p d) (holds_preview p d) d.pr_number (numbers p (closing ds))
          (numbers p ds) k (λ h. h) (closing-numbers ds k))
  ]
    where
      superseded_row : Deployment → Deployment
      superseded_row d = record d { state = superseded; updated_at = now }

      gone : (d : Deployment) → holds_preview p (superseded_row d) ≡ true → holds_preview p d ≡ true
      gone d h = ground arith

  close_previews-Capped :
      (s : Store) → Capped p s.deployments → Capped p (close_previews now qs n s).deployments
  unfolding close_previews
  close_previews-Capped s h =
      le_trans
        (count_distinct_mono (numbers p (closing s.deployments)) (numbers p s.deployments)
          (closing-numbers s.deployments))
        h

module _ (p : RowId) (n : ℕ) where
  held_by : (d : Deployment) → holds_preview p d ≡ true → d.project ≡ p
  unfolding holds_preview
  held_by d h = ground arith

  start-Capped :
      (t : Turn) (url ref : Text) (q : Project) (s : Store)
      → leb max_previews (count_distinct (without n (numbers q.id s.deployments))) ≡ false
      → Capped p s.deployments
      → OnSome
          (λ after. Capped p after.deployments)
          (start_deployment t.request.committed (preview_row t url n ref q s.deployments) s)
  unfolding queue_deployment preview_row event_row
  start-Capped t url ref q s room h =
      by_start (OnSome (λ after. Capped p after.deployments)) t.request.committed d s tt
        (λ after started.
          rw (ap (λ (x : Store). x.deployments) started.0)
            (added-Capped p n d s.deployments refl (λ e. rw (held_by d e) at room) h))
    where
      d : Deployment
      d = preview_row t url n ref q s.deployments

  preview_deploy-Capped :
      (ref : Text) (t : Turn) (q : Project) (s : Store)
      → Capped p s.deployments
      → OnSome (λ after. Capped p after.deployments) (preview_deploy n ref t q s)
  unfolding preview_deploy
  preview_deploy-Capped ref t q s h = elim (Bool-cases (any (is_building q.id n) s.deployments)) [
    | inl e ↦ rw e tt
    | inr e ↦
        rw e
          (elim (Bool-cases
            (leb max_previews (count_distinct (without n (numbers q.id s.deployments))))) [
              | inl f ↦ rw f tt
              | inr f ↦ rw f (with_url q.repo_url f)
            ])
  ]
    where
      with_url :
          (url : Option Text)
          → leb max_previews (count_distinct (without n (numbers q.id s.deployments))) ≡ false
          → OnSome (λ after. Capped p after.deployments) (preview_deploy_of t url n ref q s)
      with_url none f = tt
      with_url (some url) f = start-Capped t url ref q s f h

module _ (p : RowId) (l : Limits) (turn : RowId → Turn) (req : Request) (pr : PullRequest) where
  build_previews-Capped :
      (qs : List Project) (n : ℕ) (ref : Option Text) (s : Store)
      → Capped p s.deployments
      → Capped p (build_previews l turn qs n ref s).1.deployments
  build_previews-Capped qs n none s h = h
  build_previews-Capped qs n (some ref) s h =
      each_project-keeps (λ t. Capped p t.deployments) l turn (preview_deploy n ref) (λ _. true)
        (λ t q s _. preview_deploy-Capped p n ref t q s) qs (all-true qs) s h

  act_on-Capped :
      (qs : List Project) (n : ℕ) (s : Store)
      → Capped p s.deployments
      → Capped p (act_on l turn req pr qs n s).1.deployments
  act_on-Capped [] n s h = h
  act_on-Capped (q ∷ qs) n s h = elim (Bool-cases (is_close pr.action)) [
    | inl e ↦ rw e (elim (Bool-cases req.committed) [
      | inl c ↦ rw c (close_previews-Capped (q ∷ qs) req.now n p s h)
      | inr c ↦ rw c h
    ])
    | inr e ↦ rw e (elim (Bool-cases (starts_build pr.action && same_repository pr)) [
      | inl b ↦ rw b (build_previews-Capped (q ∷ qs) n (ref_of pr.sha pr.ref) s h)
      | inr b ↦ rw b h
    ])
  ]

  with_ids-Capped :
      (number base : Option ℕ) (s : Store)
      → Capped p s.deployments
      → Capped p (with_ids l turn req pr number base s).1.deployments
  with_ids-Capped none base s h = h
  with_ids-Capped (some n) none s h = h
  with_ids-Capped (some n) (some base) s h = elim (Bool-cases req.queried) [
    | inl e ↦ rw e (act_on-Capped (filter (has_previews base) s.projects) n s h)
    | inr e ↦ rw e h
  ]

  -- Whatever a pull request event says and whatever fails, it leaves each project with at most three
  -- pull requests that have a preview being built or running, if it had no more before.
  pub handle_pull_request-Capped :
      (s : Store)
      → Capped p s.deployments
      → Capped p (handle_pull_request l turn req pr s).1.deployments
  unfolding handle_pull_request
  handle_pull_request-Capped s h = with_ids-Capped pr.number (nonzero pr.base_repo) s h
