-- ===== src/Database/Statements/Order.antt =====
-- `ORDER BY created_at DESC`: the rows stay the same, and the newest comes first.
use mathlib.Core.List.{Mem, mem-cons_of_mem}
use ship_zen_gcp.Prelude.{
  ℕ, ◌≤◌, ◌≡◌, refl, Bool, true, ◌&&◌, List, [], ◌∷◌, filter, all, leb, Bool-cases, inl, inr, arith,
}
use ship_zen_gcp.Database.{Deployment}
use ship_zen_gcp.Database.Statements.{newest_first, insert_newest}

module _ (p : Deployment → Bool) where
  all-insert_newest :
      (d : Deployment) (es : List Deployment) → all p (insert_newest d es) ≡ (p d && all p es)
  unfolding insert_newest
  all-insert_newest d [] = ground arith
  all-insert_newest d (e ∷ es) = ground (arith, all-insert_newest d es)

  pub all-newest_first : (ds : List Deployment) → all p (newest_first ds) ≡ all p ds
  unfolding newest_first
  all-newest_first [] = refl
  all-newest_first (d ∷ ds) =
      ground (arith, all-insert_newest d (newest_first ds), all-newest_first ds)

  pub all-filter : (ds : List Deployment) → all p (filter p ds) ≡ true
  all-filter [] = refl
  all-filter (d ∷ ds) = ground (arith, all-filter ds)

abbrev pub not_after : ℕ → Deployment → Bool
not_after t d = leb d.created_at t

-- The first of the rows is the newest.
abbrev pub Headed : List Deployment → Type 0
Headed [] = Unit
Headed (d ∷ ds) = all (not_after d.created_at) ds ≡ true

all-not_after :
    (a b : ℕ) (ds : List Deployment)
    → a ≤ b
    → all (not_after a) ds ≡ true
    → all (not_after b) ds ≡ true
all-not_after a b [] le h = refl
all-not_after a b (d ∷ ds) le h = ground (arith, all-not_after a b ds le)

insert_newest-Headed :
    (d : Deployment) (es : List Deployment) → Headed es → Headed (insert_newest d es)
unfolding insert_newest
insert_newest-Headed d [] h = refl
insert_newest-Headed d (e ∷ es) h = elim (Bool-cases (leb e.created_at d.created_at)) [
  | inl le ↦
      rw le (ground (arith, le, all-not_after e.created_at d.created_at es (ground (arith, le)) h))
  | inr gt ↦ rw gt (ground (arith, gt, all-insert_newest (not_after e.created_at) d es, h))
]

pub newest_first-Headed : (ds : List Deployment) → Headed (newest_first ds)
unfolding newest_first
newest_first-Headed [] = tt
newest_first-Headed (d ∷ ds) = insert_newest-Headed d (newest_first ds) (newest_first-Headed ds)

-- Each of the deployments is one of the rows.
abbrev pub AllIn : List Deployment → List Deployment → Type 0
AllIn rows [] = Unit {0}
AllIn rows (d ∷ ds) = Mem d rows × AllIn rows ds

pub AllIn-cons : (r : Deployment) (rows ds : List Deployment) → AllIn rows ds → AllIn (r ∷ rows) ds
AllIn-cons r rows [] h = tt
AllIn-cons r rows (d ∷ ds) h = (mem-cons_of_mem r h.0, AllIn-cons r rows ds h.1)

insert_newest-AllIn :
    (rows : List Deployment) (d : Deployment) (es : List Deployment)
    → Mem d rows
    → AllIn rows es
    → AllIn rows (insert_newest d es)
unfolding insert_newest
insert_newest-AllIn rows d [] m h = (m, tt)
insert_newest-AllIn rows d (e ∷ es) m h = elim (Bool-cases (leb e.created_at d.created_at)) [
  | inl le ↦ rw le (m, h)
  | inr gt ↦ rw gt (h.0, insert_newest-AllIn rows d es m h.1)
]

pub newest_first-AllIn : (rows ds : List Deployment) → AllIn rows ds → AllIn rows (newest_first ds)
unfolding newest_first
newest_first-AllIn rows [] h = tt
newest_first-AllIn rows (d ∷ ds) h =
    insert_newest-AllIn rows d (newest_first ds) h.0 (newest_first-AllIn rows ds h.1)
