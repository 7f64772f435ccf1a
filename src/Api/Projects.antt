-- ===== src/Api/Projects.antt =====
-- api/routers/projects.py: creating and deleting projects, their vanity names and scaling; Members has
-- their members. Audit logs and notifications are left out, and so is the project's secret, whose
-- creation raises nothing.
pub mod Names
pub mod Members
pub mod Consistent
pub mod Requests
use ship_zen_gcp.Prelude.{
  ℕ, ◌≤◌, Bool, true, false, not, ◌&&◌, ◌||◌, List, [], ◌∷◌, ◌++◌, Text, text_eq, starts_with,
  Option, none, some, any, all, find?, filter, length, ltb, leb, ◌==◌, if◌then◌else◌, is_some,
  is_alnum, is_lower_alnum, codes,
}
use ship_zen_gcp.Database.{RowId, Status, provisioning, terminating, Project}
use ship_zen_gcp.Database.Statements.{update}
use ship_zen_gcp.Shared.Sizes
use ship_zen_gcp.Shared.Hostnames.{valid_vanity}
use ship_zen_gcp.Api.Store.{
  Role, owner, editor, viewer, Member, User, Store, Request, Reply, ok, http, ◌>>=◌, ◌>>◌, guard,
  required,
}
use ship_zen_gcp.Api.Access.{find_member, check_project_access, assert_project_owner}
use ship_zen_gcp.Api.Create.{Repo}
use Names.{valid_name, valid_namespace, subdomain_of}

pub record CreateBody : Type 0 where
  pub name : Text
  pub namespace : Text
  pub repo_url : Option Text
  pub branch : Option Text

abbrev pub id_of : Option Repo → Option ℕ
id_of none = none
id_of (some r) = some r.id

abbrev pub full_name_of : Option Repo → Option Text
full_name_of none = none
full_name_of (some r) = some r.full_name

-- The row, with the columns' defaults. The secret is as it is stored.
unfoldable pub new_project : Request → CreateBody → Option Repo → Text → Project
new_project req body repo secret = record {
  id = req.fresh;
  namespace = body.namespace;
  status = provisioning;
  name = body.name;
  subdomain = none;
  live_deployment_id = none;
  github_repo_id = id_of repo;
  github_repo_full_name = full_name_of repo;
  repo_url = body.repo_url;
  branch = body.branch;
  webhook_secret = some secret;
  owner_id = req.user;
  deleted = false;
  instance_size = Sizes.known Sizes.small;
  min_instances = some 1;
  max_instances = some 1;
}

-- The keys of the tables: `none` is a UniqueViolation.
abbrev pub same_row : Project → Project → Bool
same_row q r = q.id == r.id || text_eq q.namespace r.namespace

unfoldable pub insert_project : Project → List Project → Option (List Project)
insert_project q ps = if any (same_row q) ps then none else some (ps ++ q ∷ [])

unfoldable pub insert_member : Member → List Member → Option (List Member)
insert_member m ms =
    if any (λ e. e.project == m.project && e.user == m.user) ms then none else some (ms ++ m ∷ [])

-- The transaction: the project and its owner's membership, or nothing.
abbrev pub committed_project :
    Bool → Project → Option (List Project) → Option (List Member) → Store → Reply Project × Store
committed_project c q none ms s = (http 409, s)
committed_project c q (some ps) none s = (http 409, s)
committed_project c q (some ps) (some ms) s =
    if c then (ok q, record s { projects = ps; members = ms }) else (http 500, s)

abbrev pub owner_of : Project → Member
owner_of q = record { project = q.id; user = q.owner_id; role = owner }

abbrev pub create_with :
    Request → CreateBody → Reply (Option Repo) → Option Text → Store → Reply Project × Store
create_with req body (http n) secret s = (http n, s)
create_with req body (ok repo) none s = (http 500, s)
create_with req body (ok repo) (some secret) s =
    let q = new_project req body repo secret in
    committed_project req.committed q (insert_project q s.projects)
      (insert_member (owner_of q) s.members) s

-- What GitHub says of the repository is given (no repository is asked for without a URL), and the new
-- secret, encrypted (`none` is an exception).
unfoldable pub create_project :
    Request → CreateBody → Reply (Option Repo) → Option Text → Store → Reply Project × Store
unfolding valid_name valid_namespace new_project insert_project insert_member
create_project req body answer secret s =
    if valid_name body.name && valid_namespace body.namespace
    then create_with req body answer secret s
    else (http 422, s)

-- An UPDATE of the project's row.
abbrev pub set_project : RowId → (Project → Project) → Store → Store
set_project p set s = record s { projects = update (λ q. q.id == p) set s.projects }

-- After the checks: the write, or the status of its failure.
abbrev pub write_if : Reply (Unit {0}) → Bool → Store → Store → Reply (Unit {0}) × Store
write_if (http n) c after s = (http n, s)
write_if (ok u) c after s = if c then (ok u, after) else (http 500, s)

abbrev pub accepted : Option Text → Bool
accepted none = true
accepted (some sub) = valid_vanity (some sub)

-- The unique index on the names of projects that are not deleted, at an UPDATE.
abbrev pub has_sub : Text → Option Text → Bool
has_sub sub none = false
has_sub sub (some t) = text_eq t sub

unfoldable pub takes : RowId → Option Text → Project → Bool
takes p none q = false
takes p (some sub) q = not (q.id == p) && not q.deleted && has_sub sub q.subdomain

unfoldable pub set_project_subdomain :
    Request → RowId → Option Text → Store → Reply (Unit {0}) × Store
unfolding update takes
set_project_subdomain req p body s =
    let sub = subdomain_of body in
    write_if
      (do
        q ← check_project_access true req p s
        guard (accepted sub) 422
        guard (not (any (takes p sub) s.projects)) 409)
      req.committed (set_project p (λ q. record q { subdomain = sub }) s) s

abbrev pub no_problem : Option Sizes.ScalingProblem → Bool
no_problem none = true
no_problem (some x) = false

unfoldable pub set_project_scaling :
    Request → RowId → Sizes.Name → ℕ → ℕ → Store → Reply (Unit {0}) × Store
unfolding update
set_project_scaling req p size mn mx s =
    write_if
      (do
        q ← check_project_access true req p s
        guard (no_problem (Sizes.scaling_problem size mn mx)) 422)
      req.committed
      (set_project p
        (λ q. record q { instance_size = size; min_instances = some mn; max_instances = some mx })
        s)
      s

unfoldable pub delete_project : Request → RowId → Store → Reply (Unit {0}) × Store
unfolding update
delete_project req p s =
    write_if (do q ← check_project_access false req p s; assert_project_owner req p s) req.committed
      (set_project p (λ q. record q { status = terminating; deleted = true }) s) s
