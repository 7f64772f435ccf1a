-- ===== src/Api/Rollback/Instant.antt =====
-- An instant rollback, and the controller's sweeps after it.
use ship_zen_gcp.Prelude.{ℕ, ◌+◌, none, some, ◌==◌, if◌then◌else◌}
use ship_zen_gcp.Database.{RowId, Deployment, Tables}
use ship_zen_gcp.Api.Store.{Store}
use ship_zen_gcp.Api.Rollback.{switch_back}

module _ (now grace : ℕ) (p : RowId) (live good : Deployment) (s : Store) where
  abbrev pub switched : Tables
  switched = record {
    projects = (switch_back now grace p (some live) good s).projects;
    deployments = (switch_back now grace p (some live) good s).deployments;
  }

  -- What the switch does to one row.
  abbrev restored : Deployment → Deployment
  restored d = if d.id == good.id then record d { scale_down_after = none } else d

  abbrev pub after_switch : Deployment → Deployment
  after_switch d =
      if (restored d).id == live.id
      then record (restored d) { scale_down_after = some (now + grace) }
      else restored d

-- The tables of the API, as the controller reads them.
abbrev pub tables_of : Store → Tables
tables_of s = record { projects = s.projects; deployments = s.deployments }
