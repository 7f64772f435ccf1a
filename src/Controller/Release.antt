-- ===== src/Controller/Release.antt =====
-- controller/main.py: which releases run. `promote_release` (blue-green switch), the start of
-- `reconcile_deployments` (end of the grace period), and the SQL of `sync_vanity_route`.
pub mod Promotion
pub mod Switch
pub mod Promoted
use ship_zen_gcp.Prelude.{
  ℕ, ◌+◌, ◌*◌, Bool, true, false, not, ◌&&◌, List, [], Option, none, some, filter, drop, find?,
  ◌==◌, leb, if◌then◌else◌,
}
use ship_zen_gcp.Database.{
  RowId, superseded, State, Deployment, Project, Tables, is_running, is_production, is_up, is_zero,
  same_id,
}
use ship_zen_gcp.Database.Statements.{update, newest_first, id_in}

-- The settings of the environment: RELEASE_GRACE_MINUTES (in the unit of the clock) and KEEP_RELEASES.
pub record Settings : Type 0 where
  pub grace : ℕ
  pub keep_releases : ℕ

-- `x IS NULL`
abbrev is_null : Option ℕ → Bool
is_null none = true
is_null (some n) = false

-- `scale_down_after <= NOW()`
unfoldable pub is_due : ℕ → Option ℕ → Bool
is_due now none = false
is_due now (some t) = leb t now

-- `project_id = %s AND kind = 'production' AND state = 'Running'`
unfoldable pub is_release : RowId → Deployment → Bool
unfolding is_production is_running
is_release p d = d.project == p && is_production d.kind && is_running d.state

-- The releases that the switch leaves behind, with no grace period yet.
unfoldable pub is_left : RowId → RowId → Deployment → Bool
unfolding is_release is_up
is_left p i d = is_release p d && not (d.id == i) && is_up d.replicas && is_null d.scale_down_after

-- `... AND replicas = 0`
unfoldable pub is_scaled_down : RowId → Deployment → Bool
unfolding is_release is_zero
is_scaled_down p d = is_release p d && is_zero d.replicas

-- The rows past OFFSET: all but the newest `keep`.
unfoldable pub old_releases : ℕ → RowId → List Deployment → List Deployment
unfolding newest_first
old_releases keep p rows = drop keep (newest_first (filter (is_scaled_down p) rows))

unfoldable pub set_live : RowId → Option RowId → List Project → List Project
unfolding update
set_live p i = update (λ q. q.id == p) (λ q. record q { live_deployment_id = i })

unfoldable pub start_grace : ℕ → RowId → RowId → List Deployment → List Deployment
unfolding update is_left
start_grace until p i = update (is_left p i) (λ d. record d { scale_down_after = some until })

unfoldable pub supersede_old : ℕ → RowId → List Deployment → List Deployment
unfolding update old_releases
supersede_old keep p rows =
    update (λ d. id_in (old_releases keep p rows) d.id) (λ d. record d { state = superseded }) rows

unfoldable pub promote_release : Settings → ℕ → RowId → RowId → Tables → Tables
unfolding set_live start_grace supersede_old
promote_release s now p i t = record t {
  projects = set_live p (some i) t.projects;
  deployments = supersede_old s.keep_releases p (start_grace (now + s.grace) p i t.deployments);
}

-- `(SELECT live_deployment_id FROM projects WHERE id = %s)`: NULL if there is no row.
abbrev live_of : Option Project → Option RowId
live_of none = none
live_of (some q) = q.live_deployment_id

unfoldable pub live_id : RowId → List Project → Option RowId
live_id p ps = live_of (find? (λ q. q.id == p) ps)

-- The grace period is over, and the release is not the live one.
unfoldable pub is_over : ℕ → RowId → List Project → Deployment → Bool
unfolding is_due same_id
is_over now p ps d =
    d.project == p && is_due now d.scale_down_after && not (same_id (some d.id) (live_id p ps))

-- `UPDATE deployments SET replicas = 0, scale_down_after = NULL WHERE ...`
unfoldable pub end_grace : ℕ → RowId → Tables → Tables
unfolding update
end_grace now p t = record t {
  deployments =
      update (is_over now p t.projects)
        (λ d. record d { replicas = some 0; scale_down_after = none }) t.deployments;
}
