-- ===== src/Api/Access.antt =====
-- api/database.py: `_check_project_access` and `assert_project_owner`.
pub mod Decided
use ship_zen_gcp.Prelude.{
  ◌≡◌, refl, Bool, true, false, not, ◌&&◌, ◌||◌, List, Option, none, some, find?, ◌==◌,
  if◌then◌else◌, arith, inl, inr, Bool-cases,
}
use ship_zen_gcp.Database.{RowId, Project}
use ship_zen_gcp.Api.Store.{
  Role, owner, editor, viewer, Member, Store, Request, Reply, ok, http, ◌>>◌, guard,
}

-- `SELECT * FROM projects WHERE id = %s AND deleted_at IS NULL`
unfoldable pub find_project : RowId → List Project → Option Project
find_project p ps = find? (λ q. q.id == p && not q.deleted) ps

unfoldable pub find_member : RowId → RowId → List Member → Option Member
find_member p u ms = find? (λ m. m.project == p && m.user == u) ms

-- `role IN ('owner', 'editor')`
abbrev pub is_writer : Role → Bool
is_writer owner = true
is_writer editor = true
is_writer viewer = false

-- `required_roles and member_role not in required_roles`: writing needs a writer's role.
abbrev pub allowed : Bool → Role → Bool
allowed writes r = if writes then is_writer r else true

abbrev pub found : Option Project → Reply Project
found none = http 404
found (some q) = ok q

-- The JOIN of the project with the caller's membership.
abbrev pub joined : Bool → Option Project → Option Member → Reply Project
joined writes none m = http 403
joined writes (some q) none = http 403
joined writes (some q) (some m) = do guard (allowed writes m.role) 403; ok q

-- `_check_project_access`: for `verify_project_write_access` if `writes`, else for
-- `verify_project_access`.
unfoldable pub check_project_access : Bool → Request → RowId → Store → Reply Project
unfolding find_project find_member
check_project_access writes req p s =
    if req.is_admin
    then found (find_project p s.projects)
    else joined writes (find_project p s.projects) (find_member p req.user s.members)

abbrev pub is_owner : Role → Bool
is_owner owner = true
is_owner r = false

abbrev owns : Option Member → Bool
owns none = false
owns (some m) = is_owner m.role

unfoldable pub assert_project_owner : Request → RowId → Store → Reply (Unit {0})
unfolding find_member
assert_project_owner req p s =
    if req.is_admin then ok tt else guard (owns (find_member p req.user s.members)) 403
