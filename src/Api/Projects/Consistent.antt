-- ===== src/Api/Projects/Consistent.antt =====
-- What every request about projects and members keeps.
use ship_zen_gcp.Prelude.{
  text_eq_sym, eq_sym, all-imp, ◌≡◌, refl, ◌∙◌, Bool, true, false, not, ◌&&◌, ◌||◌, List, [], ◌∷◌,
  ◌++◌, Text, any, all, filter, find?, Option, none, some, ◌==◌, if◌then◌else◌, Bool-cases, inl,
  inr, arith,
}
use ship_zen_gcp.Database.{RowId, Project}
use ship_zen_gcp.Database.Statements.{update}
use ship_zen_gcp.Api.Store.{Role, Member, User, Store, Request, Reply, ok, http}
use ship_zen_gcp.Api.Access.{is_owner, find_member}
use ship_zen_gcp.Api.Create.{Repo}
use ship_zen_gcp.Api.Projects.{
  CreateBody, new_project, same_row, insert_project, insert_member, committed_project, owner_of,
  create_with, set_project, write_if,
}
use ship_zen_gcp.Api.Projects.Members.{or_members, add_user}

-- The membership of the project's owner_id is an owner's.
abbrev pub is_owner_row : Option Member → Bool
is_owner_row none = false
is_owner_row (some m) = is_owner m.role

unfoldable pub is_owned : List Member → Project → Bool
unfolding find_member
is_owned ms q = is_owner_row (find_member q.id q.owner_id ms)

-- No two rows have one id or one namespace.
unfoldable pub are_distinct : List Project → Bool
are_distinct [] = true
are_distinct (q ∷ qs) = not (any (same_row q) qs) && are_distinct qs

pub record IsConsistent (s : Store) : Type 0 where
  pub owned : all (is_owned s.members) s.projects ≡ true
  pub distinct : are_distinct s.projects ≡ true

-- Lists.
module _ {A : Type 0} where
  all-update :
      (f c : A → Bool) (set : A → A)
      → ((a : A) → f a ≡ true → f (set a) ≡ true)
      → (xs : List A) → all f xs ≡ true
      → all f (update c set xs) ≡ true
  unfolding update
  all-update f c set h [] a = refl
  all-update f c set h (x ∷ xs) a = ground (arith, h x, all-update f c set h xs)

  all-snoc :
      (f : A → Bool) (xs : List A) (x : A)
      → all f xs ≡ true
      → f x ≡ true
      → all f (xs ++ x ∷ []) ≡ true
  all-snoc f [] x a h = ground arith
  all-snoc f (y ∷ xs) x a h = ground (arith, all-snoc f xs x)

  find?-append :
      (f : A → Bool) (xs ys : List A) (a : A) → find? f xs ≡ some a → find? f (xs ++ ys) ≡ some a
  find?-append f [] ys a h = ground arith
  find?-append f (x ∷ xs) ys a h = ground (arith, find?-append f xs ys a)

  find?-last :
      (f : A → Bool) (xs : List A) (y : A)
      → any f xs ≡ false
      → f y ≡ true
      → find? f (xs ++ y ∷ []) ≡ some y
  find?-last f [] y h k = ground arith
  find?-last f (x ∷ xs) y h k = ground (arith, find?-last f xs y)

  pub find?-filter :
      (f g : A → Bool)
      → ((a : A) → f a ≡ true → g a ≡ true)
      → (xs : List A) → find? f (filter g xs) ≡ find? f xs
  find?-filter f g h [] = refl
  find?-filter f g h (x ∷ xs) = ground (arith, h x, find?-filter f g h xs)

are_distinct-snoc :
    (qs : List Project) (q : Project)
    → are_distinct qs ≡ true
    → any (same_row q) qs ≡ false
    → are_distinct (qs ++ q ∷ []) ≡ true
unfolding are_distinct
are_distinct-snoc [] q d h = refl
are_distinct-snoc (r ∷ qs) q d h = ground (
  arith,
  are_distinct-snoc qs q,
  any-snoc (same_row r) qs q,
  eq_sym r.id q.id,
  text_eq_sym r.namespace q.namespace,
)
  where
    any-snoc :
        (f : Project → Bool) (qs : List Project) (q : Project)
        → any f (qs ++ q ∷ []) ≡ (any f qs || f q)
    any-snoc f [] q = ground arith
    any-snoc f (r ∷ qs) q = ground (arith, any-snoc f qs q)

-- An UPDATE that leaves ids, namespaces and owners.
module _ (p : RowId) (set : Project → Project) (ids : (q : Project) → (set q).id ≡ q.id)
    (namespaces : (q : Project) → (set q).namespace ≡ q.namespace)
    (owners : (q : Project) → (set q).owner_id ≡ q.owner_id) where
  abbrev pub changed : Project → Project
  changed q = if q.id == p then set q else q

  any-changed :
      (q : Project) (qs : List Project)
      → any (same_row (changed q)) (update (λ q. q.id == p) set qs) ≡ any (same_row q) qs
  unfolding update
  any-changed q [] = refl
  any-changed q (r ∷ qs) =
      ground (arith, any-changed q qs, ids q, ids r, namespaces q, namespaces r)

  are_distinct-update :
      (qs : List Project) → are_distinct (update (λ q. q.id == p) set qs) ≡ are_distinct qs
  unfolding are_distinct update
  are_distinct-update [] = refl
  are_distinct-update (q ∷ qs) = rw (any-changed q qs, are_distinct-update qs) refl

  pub set_project-IsConsistent : (s : Store) → IsConsistent s → IsConsistent (set_project p set s)
  unfolding is_owned
  set_project-IsConsistent s v = record {
    owned =
        all-update (is_owned s.members) (λ q. q.id == p) set (λ q h. rw (ids q, owners q) h)
          s.projects v.owned;
    distinct = are_distinct-update s.projects ∙ v.distinct;
  }

pub write_if-IsConsistent :
    (r : Reply (Unit {0})) (c : Bool) (after s : Store)
    → IsConsistent s
    → IsConsistent after
    → IsConsistent (write_if r c after s).1
write_if-IsConsistent (http n) c after s v w = v
write_if-IsConsistent (ok u) true after s v w = w
write_if-IsConsistent (ok u) false after s v w = v

-- A row that is owned stays so if a member comes.
owned_still :
    (m : Member) (ms : List Member) (q : Project)
    → is_owned ms q ≡ true
    → is_owned (ms ++ m ∷ []) q ≡ true
unfolding is_owned find_member
owned_still m ms q h =
    still_owned (find? (λ m. m.project == q.id && m.user == q.owner_id) ms) refl h
  where
    still_owned :
        (o : Option Member)
        → find? (λ m. m.project == q.id && m.user == q.owner_id) ms ≡ o
        → is_owner_row o ≡ true
        → is_owned (ms ++ m ∷ []) q ≡ true
    still_owned none e k = cc
    still_owned (some a) e k = rw (find?-append _ ms (m ∷ []) a e) k

add_member-IsConsistent :
    (m : Member) (s : Store)
    → IsConsistent s
    → IsConsistent (record s { members = or_members (insert_member m s.members) s.members })
unfolding insert_member
add_member-IsConsistent m s v =
    elim (Bool-cases (any (λ e. e.project == m.project && e.user == m.user) s.members)) [
      | inl e ↦ rw e v
      | inr e ↦ rw e (record {
        owned =
            all-imp (is_owned s.members) (is_owned (s.members ++ m ∷ [])) (owned_still m s.members)
              s.projects v.owned;
        distinct = v.distinct;
      })
    ]

module _ (q : Project) (c : Bool) (s : Store) (v : IsConsistent s) where
  both_inserted :
      any (same_row q) s.projects ≡ false
      → any (λ e. e.project == q.id && e.user == q.owner_id) s.members ≡ false
      → IsConsistent
          (record s { projects = s.projects ++ q ∷ []; members = s.members ++ owner_of q ∷ [] })
  unfolding is_owned find_member
  both_inserted fresh alone = record {
    owned =
        all-snoc (is_owned (s.members ++ owner_of q ∷ [])) s.projects q
          (all-imp (is_owned s.members) (is_owned (s.members ++ owner_of q ∷ []))
            (owned_still (owner_of q) s.members) s.projects v.owned)
          (rw
            (find?-last (λ m. m.project == q.id && m.user == q.owner_id) s.members (owner_of q)
              alone (ground arith))
            refl);
    distinct = are_distinct-snoc s.projects q v.distinct fresh;
  }

  committed_project-IsConsistent :
      IsConsistent
        (committed_project c q
          (insert_project q s.projects)
          (insert_member (owner_of q) s.members)
          s).1
  unfolding insert_project insert_member
  committed_project-IsConsistent = elim (Bool-cases (any (same_row q) s.projects)) [
    | inl e ↦ rw e v
    | inr e ↦
        rw e (elim (Bool-cases (any (λ e. e.project == q.id && e.user == q.owner_id) s.members)) [
          | inl f ↦ rw f v
          | inr f ↦ rw f (elim (Bool-cases c) [ inl g ↦ rw g (both_inserted e f) | inr g ↦ rw g v ])
        ])
  ]

pub create_with-IsConsistent :
    (req : Request) (body : CreateBody) (r : Reply (Option Repo)) (secret : Option Text) (s : Store)
    → IsConsistent s
    → IsConsistent (create_with req body r secret s).1
create_with-IsConsistent req body (http n) secret s v = v
create_with-IsConsistent req body (ok repo) none s v = v
create_with-IsConsistent req body (ok repo) (some secret) s v =
    committed_project-IsConsistent (new_project req body repo secret) req.committed s v

pub add_user-IsConsistent :
    (req : Request) (p : RowId) (role : Role) (r : Reply User) (s : Store)
    → IsConsistent s
    → IsConsistent (add_user req p role r s).1
add_user-IsConsistent req p role (http n) s v = v
add_user-IsConsistent req p role (ok u) s v =
    write_if-IsConsistent _ req.committed _ s v (add_member-IsConsistent _ s v)
