-- ===== src/Examples/Sweeps.antt =====
-- Sweeps of the controller at concrete rows.
use ship_zen_gcp.Prelude.{◌≡◌, refl, true, false, [], ◌∷◌, none, some, Option}
use ship_zen_gcp.Database.{
  RowId, Deployment, deploying, production, preview, is_production, is_running, is_up, in_flight,
}
use ship_zen_gcp.Database.Index.{clashes, same_key}
use ship_zen_gcp.Database.Index.Unique.{is_indexed}
use ship_zen_gcp.Controller.Scaling.{is_live, release_scaling}
use ship_zen_gcp.Controller.Scaling.Quota.{Fits, release_scaling-Fits}
use ship_zen_gcp.Controller.Sweep.{Seen, Swept, step, reconcile_deployments}
use ship_zen_gcp.Controller.Sweep.Indexes.{reconcile_deployments-is_indexed}
use ship_zen_gcp.Controller.Sweep.Previews.{Apart, step-Apart}
use ship_zen_gcp.Controller.Projects.{gone, well, Meets, reconcile_project}
use ship_zen_gcp.Controller.Projects.Lifecycle.{becomes, status_of, reconcile_project-becomes}
use ship_zen_gcp.Examples.Rows.{row, shop, old_live, tables, settings}

abbrev seen : Seen
seen = record {
  replicas = some 1;
  image = [];
  key = none;
  ready = 1;
  progressing = false;
  complete = true;
}

abbrev view : RowId → Option Seen
view i = some seen

abbrev coming : Deployment
coming = row 20 production deploying (some 1) 8

abbrev coming_preview : Deployment
coming_preview = row 21 preview deploying (some 1) 9

abbrev start : Swept
start = record {
  tables = record tables { deployments = old_live ∷ coming ∷ coming_preview ∷ [] };
  crashes = [];
  commits = [];
}

shop_live : is_live shop old_live ≡ true
unfolding is_live is_running is_up is_production
shop_live = refl

release_scaling-Fits_example : Fits (release_scaling shop old_live)
release_scaling-Fits_example = release_scaling-Fits shop old_live shop_live

start_indexed : is_indexed start.tables.deployments ≡ true
unfolding is_indexed clashes in_flight same_key
start_indexed = refl

reconcile_deployments-is_indexed_example :
    is_indexed (reconcile_deployments settings 30 shop view start).tables.deployments ≡ true
reconcile_deployments-is_indexed_example =
    reconcile_deployments-is_indexed settings 30 shop view start start_indexed

old_production : is_production old_live.kind ≡ true
unfolding is_production
old_production = refl

a_preview : is_production coming_preview.kind ≡ false
unfolding is_production
a_preview = refl

step-Apart_example :
    Apart 0 old_live start.tables (step settings 30 shop view coming_preview start).tables
step-Apart_example =
    step-Apart 0 old_live coming_preview refl old_production settings 30 a_preview shop view start
      refl

abbrev meets : Meets
meets = record {
  git = true;
  namespace = gone;
  services = true;
  status_written = true;
  course = well;
}

reconcile_project-becomes_example :
    becomes meets shop.status
      (status_of 1 (reconcile_project settings 30 meets true shop view start).tables.projects)
    ≡ true
reconcile_project-becomes_example =
    reconcile_project-becomes settings 30 meets true shop view start refl
