-- ===== src/Api/Pages.antt =====
-- api/routers/deployments.py: `list_deployments`, one page of a project's deployments by keyset.
pub mod Order
pub mod Walk
use ship_zen_gcp.Prelude.{
  ℕ, Bool, true, false, ◌&&◌, ◌||◌, List, [], ◌∷◌, Text, Option, none, some, take, filter, ltb, leb,
  ◌==◌, if◌then◌else◌,
}
use ship_zen_gcp.Database.{RowId, Deployment}
use ship_zen_gcp.Api.Store.{Reply, ok, http, ◌>>=◌, ◌>>◌, guard, Store, Request}
use ship_zen_gcp.Api.Access.{check_project_access}

-- `(updated_at, deployment_id)`, compared as a row.
abbrev pub RowKey : Type 0
RowKey = ℕ × RowId

abbrev pub row_key : Deployment → RowKey
row_key d = (d.updated_at, d.id)

abbrev pub is_below : RowKey → Deployment → Bool
is_below (t, i) d = ltb d.updated_at t || d.updated_at == t && ltb d.id i

-- `ORDER BY updated_at DESC, deployment_id DESC`
abbrev pub put_latest : Deployment → List Deployment → List Deployment
put_latest d [] = d ∷ []
put_latest d (e ∷ es) =
    let rest = put_latest d es in if is_below (row_key d) e then d ∷ e ∷ es else e ∷ rest

abbrev pub latest_first : List Deployment → List Deployment
latest_first [] = []
latest_first (d ∷ ds) = put_latest d (latest_first ds)

-- `cursor.split("|", 1)`
abbrev pub with_head : ℕ → Option (Text × Text) → Option (Text × Text)
with_head c none = none
with_head c (some (a, b)) = some (c ∷ a, b)

abbrev pub split_bar : Text → Option (Text × Text)
split_bar [] = none
split_bar (c ∷ cs) =
    let rest = split_bar cs in if c == b'|' then some ([], cs) else with_head c rest

-- The database reads the two parts, or refuses them, which is answered with 500.
abbrev pub key_read : Option RowKey → Reply RowKey
key_read none = http 500
key_read (some k) = ok k

abbrev pub read_parts : (Text → Text → Option RowKey) → Option (Text × Text) → Reply RowKey
read_parts read none = http 400
read_parts read (some (a, b)) = key_read (read a b)

unfoldable pub cursor_key : (Text → Text → Option RowKey) → Option Text → Reply (Option RowKey)
cursor_key read none = ok none
cursor_key read (some []) = ok none
cursor_key read (some (c ∷ cs)) = do k ← read_parts read (split_bar (c ∷ cs)); ok (some k)

abbrev pub after_cursor : Option RowKey → List Deployment → List Deployment
after_cursor none ds = ds
after_cursor (some k) ds = filter (is_below k) ds

abbrev pub of_project : RowId → Deployment → Bool
of_project p d = d.project == p

-- The rows of the project in their order; the cursor's condition keeps it.
abbrev pub page : ℕ → Option RowKey → RowId → List Deployment → List Deployment
page limit k p ds = take limit (after_cursor k (latest_first (filter (of_project p) ds)))

-- `answered`: whether the query succeeds.
unfoldable pub list_deployments :
    (Text → Text → Option RowKey)
    → Bool
    → Request
    → RowId
    → ℕ
    → Option Text
    → Store
    → Reply (List Deployment)
unfolding cursor_key
list_deployments read answered req p limit cursor s = do
  q ← check_project_access false req p s
  guard (leb 1 limit && leb limit 100) 422
  k ← cursor_key read cursor
  guard answered 500
  ok (page limit k p s.deployments)
