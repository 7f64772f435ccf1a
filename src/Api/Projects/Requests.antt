-- ===== src/Api/Projects/Requests.antt =====
-- Sequences of requests about projects and their members.
use ship_zen_gcp.Prelude.{
  all-imp, ℕ, ◌≡◌, refl, sym, ap, ◌∙◌, Bool, true, not, ◌&&◌, List, [], ◌∷◌, Text, filter, Option,
  some, ◌==◌, ==_iff, and_true, Bool-cases, inl, inr, arith,
}
use ship_zen_gcp.Database.{RowId, Project}
use ship_zen_gcp.Shared.Sizes
use ship_zen_gcp.Api.Store.{Role, Member, Store, Request, Reply, ok, http}
use ship_zen_gcp.Api.Ensures.{Ensures, by_bind, by_guard, by_any, by_required, last_guard}
use ship_zen_gcp.Api.Access.{is_owner, find_member}
use ship_zen_gcp.Api.Create.{Repo}
use ship_zen_gcp.Api.Projects.{
  CreateBody, create_project, write_if, set_project_subdomain, set_project_scaling, delete_project,
}
use ship_zen_gcp.Api.Projects.Names.{valid_name, valid_namespace}
use ship_zen_gcp.Api.Projects.Members.{add_project_member, remove_project_member}
use ship_zen_gcp.Api.Projects.Consistent.{
  IsConsistent, is_owned, is_owner_row, find?-filter, set_project-IsConsistent,
  create_with-IsConsistent, add_user-IsConsistent, write_if-IsConsistent,
}

-- A request, with what GitHub and the encryption answer.
pub data Op : Type 0 where
  create : CreateBody → Reply (Option Repo) → Option Text → Op
  rename : RowId → Option Text → Op
  scale : RowId → Sizes.Name → ℕ → ℕ → Op
  delete : RowId → Op
  add : RowId → Text → Role → Op
  remove : RowId → RowId → Op

pub serve : Request → Op → Store → Store
serve req (create body answer secret) s = (create_project req body answer secret s).1
serve req (rename p sub) s = (set_project_subdomain req p sub s).1
serve req (scale p size mn mx) s = (set_project_scaling req p size mn mx s).1
serve req (delete p) s = (delete_project req p s).1
serve req (add p email role) s = (add_project_member req p email role s).1
serve req (remove p target) s = (remove_project_member req p target s).1

pub serve_all : List (Request × Op) → Store → Store
serve_all [] s = s
serve_all ((req, o) ∷ os) s = serve_all os (serve req o s)

checked-IsConsistent :
    {R : Type 0} (r : Reply (Unit {0})) (c : Bool) (after s : Store)
    → Ensures (λ _. R) r
    → IsConsistent s
    → (R → IsConsistent after)
    → IsConsistent (write_if r c after s).1
checked-IsConsistent (http n) c after s e v k = v
checked-IsConsistent (ok u) c after s e v k = write_if-IsConsistent (ok u) c after s v (k e.holds)

module _ (p target : RowId) (s : Store) (v : IsConsistent s) (m : Member)
    (there : find_member p target s.members ≡ some m) (lower : not (is_owner m.role) ≡ true) where
  abbrev kept : Member → Bool
  kept e = not (e.project == p && e.user == target)

  clash : (i o : RowId) → i ≡ p → o ≡ target → is_owner_row (find_member i o s.members) ≡ true → ⊥
  clash i o ei eo h = ground (
    arith,
    sym (ap (λ r. is_owner_row r) there)
        ∙ sym (ap (λ r. is_owner_row (find_member r target s.members)) ei)
        ∙ sym (ap (λ r. is_owner_row (find_member i r s.members)) eo)
        ∙ h,
  )

  owned_without :
      (q : Project) → is_owned s.members q ≡ true → is_owned (filter kept s.members) q ≡ true
  unfolding is_owned find_member
  owned_without q h = elim (Bool-cases (q.id == p && q.owner_id == target)) [
    | inl e ↦ absurd (
        clash q.id q.owner_id ((==_iff q.id p).0 (and_true _ _ e).0)
          ((==_iff q.owner_id target).0 (and_true _ _ e).1) h)
    | inr e ↦
        rw
          (find?-filter (λ e. e.project == q.id && e.user == q.owner_id) kept (λ a k. ground arith)
            s.members)
          h
  ]

  removed-IsConsistent : IsConsistent (record s { members = filter kept s.members })
  removed-IsConsistent = record {
    owned =
        all-imp (is_owned s.members) (is_owned (filter kept s.members)) owned_without s.projects
          v.owned;
    distinct = v.distinct;
  }

remove-IsConsistent :
    (req : Request) (p target : RowId) (s : Store)
    → IsConsistent s
    → IsConsistent (remove_project_member req p target s).1
unfolding remove_project_member
remove-IsConsistent req p target s v =
    checked-IsConsistent
      {R = (m : Member) × (find_member p target s.members ≡ some m)
        × (not (is_owner m.role) ≡ true)}
      _ req.committed _ s
      (by_bind _ _ λ q.
        by_guard _ _ _
          λ a. by_any _ _ (by_required _ _ _ λ m there. last_guard _ _ λ lower. (m, there, lower)))
      v (λ f. removed-IsConsistent p target s v f.0 f.1 f.2)

create-IsConsistent :
    (req : Request) (body : CreateBody) (answer : Reply (Option Repo)) (secret : Option Text)
    (s : Store)
    → IsConsistent s
    → IsConsistent (create_project req body answer secret s).1
unfolding create_project
create-IsConsistent req body answer secret s v =
    elim (Bool-cases (valid_name body.name && valid_namespace body.namespace)) [
      | inl e ↦ rw e (create_with-IsConsistent req body answer secret s v)
      | inr e ↦ rw e v
    ]

serve-IsConsistent :
    (req : Request) (o : Op) (s : Store) → IsConsistent s → IsConsistent (serve req o s)
unfolding serve set_project_subdomain set_project_scaling delete_project add_project_member
serve-IsConsistent req (create body answer secret) s v =
    create-IsConsistent req body answer secret s v
serve-IsConsistent req (rename p sub) s v =
    write_if-IsConsistent _ req.committed _ s v
      (set_project-IsConsistent p _ (λ q. refl) (λ q. refl) (λ q. refl) s v)
serve-IsConsistent req (scale p size mn mx) s v =
    write_if-IsConsistent _ req.committed _ s v
      (set_project-IsConsistent p _ (λ q. refl) (λ q. refl) (λ q. refl) s v)
serve-IsConsistent req (delete p) s v =
    write_if-IsConsistent _ req.committed _ s v
      (set_project-IsConsistent p _ (λ q. refl) (λ q. refl) (λ q. refl) s v)
serve-IsConsistent req (add p email role) s v = add_user-IsConsistent req p role _ s v
serve-IsConsistent req (remove p target) s v = remove-IsConsistent req p target s v

-- Any sequence of requests to create, rename, scale and delete projects and to add and remove members,
-- by anybody, whatever GitHub answers and whatever fails, keeps this: each project has the membership
-- of its owner, with the role of an owner, and no two projects have one id or one namespace.
pub serve_all-IsConsistent :
    (os : List (Request × Op)) (s : Store) → IsConsistent s → IsConsistent (serve_all os s)
unfolding serve_all
serve_all-IsConsistent [] s v = v
serve_all-IsConsistent ((req, o) ∷ os) s v =
    serve_all-IsConsistent os (serve req o s) (serve-IsConsistent req o s v)
