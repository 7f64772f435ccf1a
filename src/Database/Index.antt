-- ===== src/Database/Index.antt =====
-- The two unique indexes of migration 0013: at most one active production deployment of a project, and
-- at most one active preview of a pull request.
pub mod Unique
pub mod Quiet
use ship_zen_gcp.Prelude.{
  ℕ, Bool, true, false, not, ◌&&◌, ◌||◌, List, [], ◌∷◌, ◌++◌, Option, none, some, any, ◌==◌,
  if◌then◌else◌,
}
use ship_zen_gcp.Database.{Kind, production, preview, Deployment, in_flight}

-- NULLs are distinct in an index.
abbrev pub same_number : Option ℕ → Option ℕ → Bool
same_number (some a) (some b) = a == b
same_number none b = false
same_number (some a) none = false

abbrev pub same_kind : Kind → Kind → Option ℕ → Option ℕ → Bool
same_kind production production a b = true
same_kind preview preview a b = same_number a b
same_kind production preview a b = false
same_kind preview production a b = false

-- The key under which an active row is indexed. A preview without a pull request number clashes with
-- nothing.
unfoldable pub same_key : Deployment → Deployment → Bool
same_key d e = d.project == e.project && same_kind d.kind e.kind d.pr_number e.pr_number

-- Another active row has the key of an active row.
unfoldable pub clashes : Deployment → List Deployment → Bool
unfolding in_flight
clashes d rows =
    in_flight d.state && any (λ e. not (e.id == d.id) && in_flight e.state && same_key d e) rows

-- `INSERT INTO deployments`: `none` is a UniqueViolation, of the primary key or of an index.
unfoldable pub insert : Deployment → List Deployment → Option (List Deployment)
unfolding clashes
insert d rows =
    if any (λ e. e.id == d.id) rows || clashes d rows then none else some (rows ++ d ∷ [])
