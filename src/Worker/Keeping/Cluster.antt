-- ===== src/Worker/Keeping/Cluster.antt =====
-- Facts about the world that do not depend on the cluster's Secrets or on the workspaces hold through
-- the stages that only make these.
use ship_zen_gcp.Prelude.{◌∷◌, List, Text}
use ship_zen_gcp.Database.{RowId}
use ship_zen_gcp.Worker.World.{Secret, World}
use ship_zen_gcp.Worker.World.Rules.{
  Keeps, Keeps-modify, Keeps-bind, Keeps-require, Keeps-swallow, keeps_rules,
}
use ship_zen_gcp.Worker.Stages.{
  Env, Answer, created, conflict, refused, github_stage, make_workspace, clone_stage,
  registry_stage, create_secret, hold,
}
use ship_zen_gcp.Worker.Keeping.{OffBooks, use_db-Keeps}

pub record OffCluster (P : World → Type 0) : Type 0 where
  pub secrets : (ss : List Secret) (w : World) → P w → P (record w { secrets = ss })
  pub held : (ss : List Secret) (w : World) → P w → P (record w { held = ss })
  pub workspaces : (ks : List RowId) (w : World) → P w → P (record w { workspaces = ks })

module _ {P : World → Type 0} (c : OffCluster P) where
  create_secret-Keeps : (r : Answer) (s : Secret) → Keeps P (create_secret r s)
  unfolding create_secret
  create_secret-Keeps created s = Keeps-modify _ (λ w h. c.secrets (s ∷ w.secrets) w h)
  create_secret-Keeps conflict s = Keeps-modify _ (λ w h. c.secrets (s ∷ w.secrets) w h)
  create_secret-Keeps refused s = search keeps_rules

  hold-Keeps : (s : Secret) → Keeps P (hold s)
  unfolding hold
  hold-Keeps s = Keeps-modify _ (λ w h. c.held _ w h)

  pub github_stage-Keeps : (env : Env) (i : RowId) (url : Text) → Keeps P (github_stage env i url)
  unfolding github_stage
  github_stage-Keeps env i url = search (keeps_rules, hold-Keeps, create_secret-Keeps)

  make_workspace-Keeps : (i : RowId) → Keeps P (make_workspace i)
  unfolding make_workspace
  make_workspace-Keeps i = Keeps-modify _ (λ w h. c.workspaces _ w h)

  pub clone_stage-Keeps : OffBooks P → (env : Env) (i : RowId) → Keeps P (clone_stage env i)
  unfolding clone_stage
  clone_stage-Keeps u env i = Keeps-bind _ _ (make_workspace-Keeps i) λ _.
      Keeps-bind _ _ (Keeps-require _ _)
        λ _. Keeps-bind _ _ (Keeps-swallow _ (use_db-Keeps u)) λ _. Keeps-require _ _

  pub registry_stage-Keeps :
      (env : Env) (i : RowId) (image : Text) → Keeps P (registry_stage env i image)
  unfolding registry_stage
  registry_stage-Keeps env i image = search (keeps_rules, hold-Keeps, create_secret-Keeps)
