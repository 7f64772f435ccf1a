-- ===== src/Api/Projects/Members.antt =====
-- api/routers/projects.py: the members of a project.
use ship_zen_gcp.Prelude.{
  Bool, true, false, not, ◌&&◌, List, Text, text_eq, Option, none, some, find?, filter, ◌==◌,
  is_some,
}
use ship_zen_gcp.Database.{RowId}
use ship_zen_gcp.Api.Store.{
  Role, owner, Member, User, Store, Request, Reply, ok, http, ◌>>=◌, ◌>>◌, guard, required,
}
use ship_zen_gcp.Api.Access.{is_owner, find_member, check_project_access, assert_project_owner}
use ship_zen_gcp.Api.Projects.{insert_member, write_if}

-- `SELECT ... FROM users WHERE email = %s`, the first of them.
abbrev is_email : Text → Option Text → Bool
is_email email none = false
is_email email (some e) = text_eq e email

abbrev has_email : Text → User → Bool
has_email email u = is_email email u.email

-- Only 'editor' and 'viewer' can be given.
abbrev pub can_give : Role → Bool
can_give owner = false
can_give r = true

abbrev pub or_members : Option (List Member) → List Member → List Member
or_members none ms = ms
or_members (some ms') ms = ms'

abbrev pub add_user : Request → RowId → Role → Reply User → Store → Reply (Unit {0}) × Store
add_user req p role (http n) s = (http n, s)
add_user req p role (ok u) s =
    let o = insert_member (record { project = p; user = u.id; role = role }) s.members in
    write_if (guard (is_some o) 409) req.committed (record s { members = or_members o s.members }) s

unfoldable pub add_project_member : Request → RowId → Text → Role → Store → Reply (Unit {0}) × Store
unfolding insert_member
add_project_member req p email role s =
    add_user req p role
      (do
        q ← check_project_access false req p s
        guard (can_give role) 422
        assert_project_owner req p s
        required (find? (has_email email) s.users) 404)
      s

unfoldable pub remove_project_member : Request → RowId → RowId → Store → Reply (Unit {0}) × Store
remove_project_member req p target s =
    write_if
      (do
        q ← check_project_access false req p s
        guard (not (target == req.user)) 403
        assert_project_owner req p s
        m ← required (find_member p target s.members) 404
        guard (not (is_owner m.role)) 403)
      req.committed
      (record s { members = filter (λ m. not (m.project == p && m.user == target)) s.members }) s
