-- ===== src/Api/Cancel.antt =====
-- api/routers/deployments.py: `cancel_deployment`, up to the commit; the build's Job is deleted
-- afterwards, and errors of that are only logged.
pub mod Freed
use ship_zen_gcp.Prelude.{
  ℕ, Bool, true, false, ◌&&◌, List, Option, none, some, find?, any, ◌==◌, if◌then◌else◌,
}
use ship_zen_gcp.Database.{RowId, failed, cancelled, Deployment, in_flight}
use ship_zen_gcp.Database.Statements.{update}
use ship_zen_gcp.Api.Store.{Store, Request, Reply, ok, http, ◌>>=◌, ◌>>◌, guard}

abbrev pub active_row : Option Deployment → Reply (Unit {0})
active_row none = http 404
active_row (some d) = guard (in_flight d.state) 400

-- The row is this project's, and active.
unfoldable pub cancel_check : RowId → RowId → Store → Reply (Unit {0})
unfolding in_flight guard
cancel_check p i s = active_row (find? (λ d. d.id == i && d.project == p) s.deployments)

-- `WHERE deployment_id = %s AND state IN (...)`
unfoldable pub still_active : RowId → Deployment → Bool
unfolding in_flight
still_active i d = d.id == i && in_flight d.state

abbrev pub set_cancelled : ℕ → Deployment → Deployment
set_cancelled now d = record d { state = failed; last_error = some cancelled; updated_at = now }

-- The UPDATE and its `rowcount`.
unfoldable pub cancel_update : ℕ → RowId → Store → Reply (Unit {0}) × Store
unfolding still_active update
cancel_update now i s =
    if any (still_active i) s.deployments
    then (
      ok tt,
      record s { deployments = update (still_active i) (set_cancelled now) s.deployments },
    )
    else (http 409, s)

abbrev pub after_check :
    Reply (Unit {0}) → ℕ → RowId → (Store → Store) → Store → Reply (Unit {0}) × Store
after_check (http n) now i meanwhile s = (http n, s)
after_check (ok u) now i meanwhile s = cancel_update now i (meanwhile s)

-- `meanwhile` is what the other processes commit between the SELECT and the UPDATE.
unfoldable pub cancel_deployment :
    Request → RowId → RowId → (Store → Store) → Store → Reply (Unit {0}) × Store
unfolding cancel_check cancel_update
cancel_deployment req p i meanwhile s = after_check (cancel_check p i s) req.now i meanwhile s
