-- ===== src/Api/Limits.antt =====
-- api/helpers.py: `check_deploy_limits`, the limits against abuse.
use ship_zen_gcp.Prelude.{
  ℕ, Bool, false, not, ◌&&◌, List, Option, none, some, find?, any, count, leb, ltb, ◌==◌,
}
use ship_zen_gcp.Database.{RowId, Deployment, Project, in_flight}
use ship_zen_gcp.Api.Store.{Member, User, Store, Request, Reply, ◌>>◌, guard}
use ship_zen_gcp.Api.Access.{is_writer}

-- MAX_ACTIVE_DEPLOYS_PER_USER and MAX_DEPLOYS_PER_PROJECT_PER_MONTH
pub record Limits : Type 0 where
  pub active : ℕ
  pub monthly : ℕ

-- The project's owner is suspended: the JOIN gives no row without the project or the user.
abbrev suspended_user : Option User → Bool
suspended_user none = false
suspended_user (some u) = u.suspended

abbrev owner_suspended_of : Option Project → List User → Bool
owner_suspended_of none us = false
owner_suspended_of (some q) us = suspended_user (find? (λ u. u.id == q.owner_id) us)

unfoldable pub owner_suspended : RowId → Store → Bool
owner_suspended p s = owner_suspended_of (find? (λ q. q.id == p) s.projects) s.users

-- `project_id = %s AND created_at >= date_trunc('month', NOW())`
unfoldable pub is_of_month : RowId → ℕ → Deployment → Bool
is_of_month p month_start d = d.project == p && leb month_start d.created_at

-- The JOIN with the memberships, of which a project and a user have at most one.
unfoldable pub is_writer_of : List Member → RowId → RowId → Bool
is_writer_of ms u p = any (λ m. m.project == p && m.user == u && is_writer m.role) ms

unfoldable pub is_active_for : List Member → RowId → Deployment → Bool
unfolding is_writer_of in_flight
is_active_for ms u d = is_writer_of ms u d.project && in_flight d.state

-- Of every deploy, also one without a user (`user_id` is None).
unfoldable pub check_project_limits : Limits → Request → RowId → Store → Reply (Unit {0})
unfolding owner_suspended is_of_month
check_project_limits l req p s = do
  guard (not s.freeze) 423
  guard (not (owner_suspended p s)) 403
  guard (ltb (count (is_of_month p req.month_start) s.deployments) l.monthly) 429

-- A deploy that a user asks for (`user_id` is given).
unfoldable pub check_deploy_limits : Limits → Request → RowId → Store → Reply (Unit {0})
unfolding check_project_limits is_active_for
check_deploy_limits l req p s = do
  check_project_limits l req p s
  guard (ltb (count (is_active_for s.members req.user) s.deployments) l.active) 429
