-- ===== src/Controller/Projects.antt =====
-- controller/main.py: `_reconcile_project`, one sweep over one project. `sync_vanity_route`, which writes no
-- table, stands in Controller/Vanity.
pub mod Lifecycle
use ship_zen_gcp.Prelude.{ℕ, Bool, true, false, List, Option, ◌==◌, if◌then◌else◌}
use ship_zen_gcp.Database.{
  RowId, Status, provisioning, ready, terminating, failed, terminated, Project, Tables,
}
use ship_zen_gcp.Database.Statements.{update}
use ship_zen_gcp.Controller.Release.{Settings, end_grace}
use ship_zen_gcp.Controller.Sweep.{Seen, Swept, reconcile_deployments}

-- `check_namespace_exists`, which raises on any status other than 404.
pub data Lookup : Type 0 where
  there gone unanswered : Lookup

-- How the work on the deployments of a Ready project goes: well, or an error comes out of it at the end of
-- the grace periods, at the reading of the rows after it, or at the queries of `sync_vanity_route`. (What
-- happens in the steps for the deployments is caught there.)
pub data Course : Type 0 where
  well no_grace no_rows no_route : Course

-- What the sweep meets: whether the commit of the tenant's manifests to git returns, whether the
-- namespace is there, whether the registry and the secrets are served, whether the UPDATE of the status
-- is, and how the work on the deployments goes.
pub record Meets : Type 0 where
  pub git : Bool
  pub namespace : Lookup
  pub services : Bool
  pub status_written : Bool
  pub course : Course

unfoldable pub set_status : RowId → Status → Swept → Swept
unfolding update
set_status p s w = record w {
  tables = record (w.tables) {
    projects = update (λ q. q.id == p) (λ q. record q { status = s }) w.tables.projects;
  };
}

-- The work ends, or raises with what is written so far.
pub data Ended : Type 0 where
  ended raised : Swept → Ended

abbrev pub write_status : Bool → RowId → Status → Swept → Ended
write_status true p s w = ended (set_status p s w)
write_status false p s w = raised w

-- What follows if the namespace is there, and if it is gone.
abbrev pub by_lookup : Lookup → Ended → Ended → Swept → Ended
by_lookup there x y w = x
by_lookup gone x y w = y
by_lookup unanswered x y w = raised w

-- Provisioning: the project is Ready once its namespace, repository and secret are there.
unfoldable pub provision : Meets → RowId → Swept → Ended
unfolding set_status
provision m p w =
    if m.git
    then by_lookup m.namespace
        (if m.services then write_status m.status_written p ready w else raised w) (ended w) w
    else raised w

-- Terminating: the row stays, as Terminated, once the namespace is gone.
unfoldable pub terminate : Meets → RowId → Swept → Ended
unfolding set_status
terminate m p w =
    if m.git
    then by_lookup m.namespace (ended w)
        (if m.services then write_status m.status_written p terminated w else raised w) w
    else raised w

abbrev grace_ended : ℕ → RowId → Swept → Swept
grace_ended now p w = record w { tables = end_grace now p w.tables }

-- The deployments, and then the vanity route.
unfoldable pub sweep_ready : Settings → ℕ → Course → Project → (RowId → Option Seen) → Swept → Ended
unfolding end_grace reconcile_deployments
sweep_ready s now well q view w = ended (reconcile_deployments s now q view w)
sweep_ready s now no_grace q view w = raised w
sweep_ready s now no_rows q view w = raised (grace_ended now q.id w)
sweep_ready s now no_route q view w = raised (reconcile_deployments s now q view w)

-- Ready: without its namespace the project is provisioned again.
unfoldable pub keep_ready : Settings → ℕ → Meets → Project → (RowId → Option Seen) → Swept → Ended
unfolding set_status sweep_ready
keep_ready s now m q view w =
    by_lookup m.namespace (sweep_ready s now m.course q view w)
      (write_status m.status_written q.id provisioning w) w

abbrev pub by_status :
    Settings → ℕ → Meets → Project → (RowId → Option Seen) → Swept → Status → Ended
by_status s now m q view w provisioning = provision m q.id w
by_status s now m q view w terminating = terminate m q.id w
by_status s now m q view w ready = keep_ready s now m q view w
by_status s now m q view w failed = ended w
by_status s now m q view w terminated = raised w

-- The handler: the project fails, if that can be written; if not, the error is logged.
abbrev pub or_failed : Bool → RowId → Ended → Swept
or_failed rescued p (ended w) = w
or_failed rescued p (raised w) = if rescued then set_status p failed w else w

-- `Terminated` is no `ProjectStatus`: the schema refuses such a row.
unfoldable pub reconcile_project :
    Settings → ℕ → Meets → Bool → Project → (RowId → Option Seen) → Swept → Swept
unfolding provision terminate keep_ready set_status
reconcile_project s now m rescued q view w =
    or_failed rescued q.id (by_status s now m q view w q.status)
