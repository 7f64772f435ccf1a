-- ===== src/Api/Create/Bounds.antt =====
-- The limits hold after a deploy request is accepted.
use ship_zen_gcp.Prelude.{
  suc, Bool-cases, inl, inr, ◌≤◌, ◌<◌, Bool, List, [], ◌∷◌, ◌++◌, Text, Option, some, count,
  count-append, arith,
}
use ship_zen_gcp.Database.{RowId, Deployment, Project}
use ship_zen_gcp.Database.Index.{insert}
use ship_zen_gcp.Api.Store.{Store, Request, Reply, ok, http, queue_deployment}
use ship_zen_gcp.Api.Ensures.{Ensures, by_ok, by_guard, by_bind, by_check, last_guard}
use ship_zen_gcp.Api.Limits.{
  Limits, check_deploy_limits, check_project_limits, is_of_month, is_active_for,
}
use ship_zen_gcp.Api.Create.{
  Body, Repo, create_checks, create_deployment, new_deployment, commit, submit,
}
use ship_zen_gcp.Api.Create.Atomic.{insert-cases}

module _ (l : Limits) (req : Request) (p : RowId) (s : Store) where
  -- There is room for one more deployment.
  abbrev Room : Type 0
  Room =
      (count (is_of_month p req.month_start) s.deployments < l.monthly)
      × (count (is_active_for s.members req.user) s.deployments < l.active)

  limits-Monthly :
      Ensures
        (λ _. count (is_of_month p req.month_start) s.deployments < l.monthly)
        (check_project_limits l req p s)
  unfolding check_project_limits
  limits-Monthly = by_guard _ _ _ λ a. by_guard _ _ _ λ b. last_guard _ _ λ c. ground (arith, c)

  limits-Room : Ensures (λ _. Room) (check_deploy_limits l req p s)
  unfolding check_deploy_limits
  limits-Room = by_check _ _ limits-Monthly λ c. last_guard _ _ λ d. (c, ground (arith, d))

  checks-Room :
      (project : Project) (answer : Reply (Option Repo))
      → Ensures (λ _. Room) (create_checks l req project answer p s)
  unfolding create_checks
  checks-Room project answer = by_guard _ _ _ λ a. by_guard _ _ _ λ b. by_guard _ _ _ λ c.
      by_bind answer _ λ repo. by_guard _ _ _ λ d. by_check _ _ limits-Room λ room. by_ok repo room

  -- Accepted: both limits hold, the new deployment counted.
  abbrev pub Within : Reply Deployment → Store → Type 0
  Within (ok d) after =
      (count (is_of_month p req.month_start) after.deployments ≤ l.monthly)
      × (count (is_active_for after.members req.user) after.deployments ≤ l.active)
  Within (http n) after = Unit

  count-one_more :
      (q : Deployment → Bool) (d : Deployment) (ds : List Deployment)
      → count q (ds ++ d ∷ []) ≤ suc (count q ds)
  count-one_more q d ds = ground (arith, count-append q ds (d ∷ []))

  module _ (project : Project) (repo : Option Repo) (d : Deployment) (room : Room) where
    commit-Within :
        Within
          (commit req project repo d (some (s.deployments ++ d ∷ [])) s).0
          (commit req project repo d (some (s.deployments ++ d ∷ [])) s).1
    unfolding queue_deployment
    commit-Within = elim (Bool-cases req.committed) [
      | inl e ↦ rw e (
        (omega (arith, room.0, count-one_more (is_of_month p req.month_start) d s.deployments)),
        omega (arith, room.1, count-one_more (is_active_for s.members req.user) d s.deployments),
      )
      | inr e ↦ rw e tt
    ]

    inserted-Within :
        Within
          (commit req project repo d (insert d s.deployments) s).0
          (commit req project repo d (insert d s.deployments) s).1
    inserted-Within =
        insert-cases
          (λ o. Within (commit req project repo d o s).0 (commit req project repo d o s).1) d
          s.deployments tt (λ free. commit-Within)

  submit-Within :
      (project : Project) (body : Body) (image : Text) (r : Reply (Option Repo))
      → Ensures (λ _. Room) r
      → Within (submit req project p body image r s).0 (submit req project p body image r s).1
  submit-Within project body image (http n) h = tt
  submit-Within project body image (ok repo) h =
      inserted-Within project repo (new_deployment req p body image) h.holds

  -- Once a deploy request is accepted, the project has not started more than the allowed number of
  -- deployments this month, and the caller has not more than the allowed number in progress over all
  -- the projects where they are owner or editor, the new one counted.
  pub create_deployment-Within :
      (project : Project) (answer : Reply (Option Repo)) (body : Body) (image : Text)
      → Within
          (create_deployment l req project answer p body image s).0
          (create_deployment l req project answer p body image s).1
  unfolding create_deployment
  create_deployment-Within project answer body image =
      submit-Within project body image (create_checks l req project answer p s)
        (checks-Room project answer)
