-- ===== src/Api/Access/Decided.antt =====
-- Who gets at a project, against the rule.
use ship_zen_gcp.Prelude.{
  ◌≡◌, refl, ◌⊎◌, inl, inr, Bool, true, false, not, ◌&&◌, ◌||◌, List, [], ◌∷◌, Option, none, some,
  any, all, ◌==◌, ==_iff, if◌then◌else◌, arith, sym, ◌∙◌, Bool-cases,
}
use mathlib.Core.List.{Mem, mem-cons_self, mem-cons_of_mem}
use ship_zen_gcp.Database.{RowId, Project}
use ship_zen_gcp.Api.Store.{
  Role, owner, editor, viewer, Member, Store, Request, Reply, ok, http, ◌>>◌, guard,
}
use ship_zen_gcp.Api.Access.{
  find_project, find_member, allowed, found, joined, check_project_access,
}

-- Any role may read; owners and editors may write.
abbrev pub may_with : Bool → Role → Bool
may_with false r = true
may_with true owner = true
may_with true editor = true
may_with true viewer = false

abbrev pub is_membership : RowId → RowId → Member → Bool
is_membership p u m = m.project == p && m.user == u

-- The caller is an admin, or has a membership whose role suffices.
abbrev pub Permitted : Bool → Request → RowId → Store → Type 0
Permitted writes req p s =
    (req.is_admin ≡ true)
    ⊎ (any (λ m. is_membership p req.user m && may_with writes m.role) s.members ≡ true)

-- There is no such project, or the caller is no admin and no member, or no admin and a member whose role
-- does not suffice.
abbrev pub Forbidden : Bool → Request → RowId → Store → Type 0
Forbidden writes req p s =
    (all (λ q. not (q.id == p) || q.deleted) s.projects ≡ true)
    ⊎ ((req.is_admin ≡ false) × (any (is_membership p req.user) s.members ≡ false))
    ⊎ ((req.is_admin ≡ false)
        × (any (λ m. is_membership p req.user m && not (may_with writes m.role)) s.members ≡ true))

abbrev pub Decided : Bool → Request → RowId → Store → Reply Project → Type 0
Decided writes req p s (ok q) =
    Mem q s.projects × (q.id ≡ p) × (q.deleted ≡ false) × Permitted writes req p s
Decided writes req p s (http n) =
    (n ≡ (if req.is_admin then 404 else 403)) × Forbidden writes req p s

-- What a search finds.
abbrev Searched : RowId → List Project → Option Project → Type 0
Searched p qs none = all (λ q. not (q.id == p) || q.deleted) qs ≡ true
Searched p qs (some q) = Mem q qs × (q.id ≡ p) × (q.deleted ≡ false)

search_step :
    (p : RowId) (q : Project) (qs : List Project) (o : Option Project)
    → (q.id == p && not q.deleted) ≡ false
    → Searched p qs o
    → Searched p (q ∷ qs) o
search_step p q qs none e h = ground (arith, e, h)
search_step p q qs (some r) e h = (mem-cons_of_mem q h.0, h.1, h.2)

find_project-Searched : (p : RowId) (qs : List Project) → Searched p qs (find_project p qs)
unfolding find_project
find_project-Searched p [] = refl
find_project-Searched p (q ∷ qs) = elim (Bool-cases (q.id == p && not q.deleted)) [
  | inl e ↦ rw e (mem-cons_self, (==_iff q.id p).0 (ground (arith, e)), ground (arith, e))
  | inr e ↦ rw e (search_step p q qs _ e (find_project-Searched p qs))
]

-- What a search for a membership finds.
abbrev Joined : Bool → RowId → RowId → List Member → Option Member → Type 0
Joined writes p u ms none = any (is_membership p u) ms ≡ false
Joined writes p u ms (some m) =
    (may_with writes m.role ≡ true
      → any (λ x. is_membership p u x && may_with writes x.role) ms ≡ true)
    × (may_with writes m.role ≡ false
        → any (λ x. is_membership p u x && not (may_with writes x.role)) ms ≡ true)

join_step :
    (writes : Bool) (p u : RowId) (m : Member) (ms : List Member) (o : Option Member)
    → is_membership p u m ≡ false
    → Joined writes p u ms o
    → Joined writes p u (m ∷ ms) o
join_step writes p u m ms none e h = ground (arith, e, h)
join_step writes p u m ms (some r) e h =
    (λ k. ground (arith, e, h.0 k), λ k. ground (arith, e, h.1 k))

find_member-Joined :
    (writes : Bool) (p u : RowId) (ms : List Member) → Joined writes p u ms (find_member p u ms)
unfolding find_member
find_member-Joined writes p u [] = refl
find_member-Joined writes p u (m ∷ ms) = elim (Bool-cases (m.project == p && m.user == u)) [
  | inl e ↦ rw e (λ k. ground (arith, e, k), λ k. ground (arith, e, k))
  | inr e ↦ rw e (join_step writes p u m ms _ e (find_member-Joined writes p u ms))
]

allowed-may_with : (writes : Bool) (r : Role) → allowed writes r ≡ may_with writes r
allowed-may_with false r = refl
allowed-may_with true owner = refl
allowed-may_with true editor = refl
allowed-may_with true viewer = refl

admin_Decided :
    (writes : Bool) (req : Request) (p : RowId) (s : Store) (o : Option Project)
    → req.is_admin ≡ true
    → Searched p s.projects o
    → Decided writes req p s (found o)
admin_Decided writes req p s none a h = (rw a refl, inl h)
admin_Decided writes req p s (some q) a h = (h.0, h.1, h.2, inl a)

joined-Decided :
    (writes : Bool) (req : Request) (p : RowId) (s : Store) (o : Option Project) (j : Option Member)
    → req.is_admin ≡ false
    → Searched p s.projects o
    → Joined writes p req.user s.members j
    → Decided writes req p s (joined writes o j)
unfolding guard ◌>>◌
joined-Decided writes req p s none j a h k = (rw a refl, inl h)
joined-Decided writes req p s (some q) none a h k = (rw a refl, inr (inl (a, k)))
joined-Decided writes req p s (some q) (some m) a h k = elim (Bool-cases (allowed writes m.role)) [
  | inl e ↦ rw e (h.0, h.1, h.2, inr (k.0 (sym (allowed-may_with writes m.role) ∙ e)))
  | inr e ↦ rw e (rw a refl, inr (inr (a, k.1 (sym (allowed-may_with writes m.role) ∙ e))))
]

-- A project is handed out only if it is there, is not deleted, and the caller is an admin or a member
-- whose role suffices: any role to read it, that of an owner or an editor to write. Otherwise the answer
-- is 404 to an admin and 403 to anyone else, and there is no such project, or the caller is no admin
-- and no member, or no admin and a member whose role does not suffice.
pub check_project_access-Decided :
    (writes : Bool) (req : Request) (p : RowId) (s : Store)
    → Decided writes req p s (check_project_access writes req p s)
unfolding check_project_access
check_project_access-Decided writes req p s = elim (Bool-cases req.is_admin) [
  | inl a ↦ simp a (admin_Decided writes req p s _ a (find_project-Searched p s.projects))
  | inr a ↦ simp a (
      joined-Decided writes req p s _ _ a (find_project-Searched p s.projects)
        (find_member-Joined writes p req.user s.members))
]
