-- ===== src/Api/Create/Atomic.antt =====
-- A deploy request leaves a row and its message, or nothing.
use ship_zen_gcp.Prelude.{
  ◌≡◌, refl, false, ◌||◌, List, [], ◌∷◌, ◌++◌, Text, Option, none, some, any, ◌==◌, Bool-cases, inl,
  inr, arith,
}
use ship_zen_gcp.Database.{RowId, Deployment, Project}
use ship_zen_gcp.Database.Index.{clashes, insert}
use ship_zen_gcp.Api.Store.{Store, Request, Reply, ok, http, queue_deployment}
use ship_zen_gcp.Api.Limits.{Limits}
use ship_zen_gcp.Api.Create.{
  Body, Repo, create_checks, create_deployment, deploy_message, new_deployment, commit, submit,
}

-- Accepted: one new row and one message for it, both of the same deployment, and no active rival.
-- Refused: nothing has changed.
abbrev pub Atomic : Store → Reply Deployment → Store → Type 0
Atomic s (ok d) after =
    (after.deployments ≡ s.deployments ++ d ∷ [])
    × (after.outbox ≡ s.outbox ++ deploy_message d ∷ [])
    × (clashes d s.deployments ≡ false)
Atomic s (http n) after = after ≡ s

-- The two ways an INSERT ends.
pub insert-cases :
    (P : Option (List Deployment) → Type 0) (d : Deployment) (rows : List Deployment)
    → P none
    → (clashes d rows ≡ false → P (some (rows ++ d ∷ [])))
    → P (insert d rows)
unfolding insert
insert-cases P d rows bad good =
    elim (Bool-cases (any (λ e. e.id == d.id) rows || clashes d rows)) [
      | inl e ↦ rw e bad
      | inr e ↦ rw e (good (ground arith))
    ]

module _ (req : Request) (project : Project) (repo : Option Repo) (d : Deployment) (s : Store) where
  commit-Atomic :
      clashes d s.deployments ≡ false
      → Atomic s
          (commit req project repo d (some (s.deployments ++ d ∷ [])) s).0
          (commit req project repo d (some (s.deployments ++ d ∷ [])) s).1
  unfolding queue_deployment
  commit-Atomic free = elim (Bool-cases req.committed) [
    | inl e ↦ rw e (refl, refl, free)
    | inr e ↦ rw e refl
  ]

  inserted-Atomic :
      Atomic s
        (commit req project repo d (insert d s.deployments) s).0
        (commit req project repo d (insert d s.deployments) s).1
  inserted-Atomic =
      insert-cases
        (λ o. Atomic s (commit req project repo d o s).0 (commit req project repo d o s).1) d
        s.deployments refl commit-Atomic

submit-Atomic :
    (req : Request) (project : Project) (p : RowId) (body : Body) (image : Text)
    (r : Reply (Option Repo)) (s : Store)
    → Atomic s (submit req project p body image r s).0 (submit req project p body image r s).1
submit-Atomic req project p body image (http n) s = refl
submit-Atomic req project p body image (ok repo) s =
    inserted-Atomic req project repo (new_deployment req p body image) s

-- Whatever is asked and whatever fails, a deploy request either is refused and changes nothing, or
-- adds one row with exactly one message in the outbox for it, and no other active production
-- deployment of the project. The row is never without its message, nor the message without its row.
pub create_deployment-Atomic :
    (l : Limits) (req : Request) (project : Project) (answer : Reply (Option Repo)) (p : RowId)
    (body : Body) (image : Text) (s : Store)
    → Atomic s
        (create_deployment l req project answer p body image s).0
        (create_deployment l req project answer p body image s).1
unfolding create_deployment
create_deployment-Atomic l req project answer p body image s =
    submit-Atomic req project p body image (create_checks l req project answer p s) s
