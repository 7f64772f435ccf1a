-- ===== src/Database/Statements/Keys.antt =====
-- The primary key: a row is the only one with its id, so a statement that picks ids picks rows.
use ship_zen_gcp.Prelude.{
  ℕ, zero, suc, ◌≡◌, refl, Bool, true, false, ◌&&◌, ◌||◌, List, [], ◌∷◌, some, get_elem?, any,
  filter, drop, ◌==◌, arith,
}
use ship_zen_gcp.Database.{RowId, Deployment}
use ship_zen_gcp.Database.Statements.{update, insert_newest, newest_first, id_in}

abbrev pub Distinct : List Deployment → Type 0
Distinct [] = Unit
Distinct (d ∷ ds) = (id_in ds d.id ≡ false) × Distinct ds

module _ (cond : Deployment → Bool) (set : Deployment → Deployment)
    (keeps : (d : Deployment) → (set d).id ≡ d.id) where
  pub id_in-update : (ds : List Deployment) (i : RowId) → id_in (update cond set ds) i ≡ id_in ds i
  unfolding update
  id_in-update [] i = refl
  id_in-update (d ∷ ds) i = ground (arith, keeps d, id_in-update ds i)

  pub update-Distinct : (ds : List Deployment) → Distinct ds → Distinct (update cond set ds)
  unfolding update
  update-Distinct [] h = tt
  update-Distinct (d ∷ ds) h =
      (ground (arith, keeps d, id_in-update ds d.id), update-Distinct ds h.1)

id_in-get :
    (ds : List Deployment) (k : ℕ) (d : Deployment) → get_elem? ds k ≡ some d → id_in ds d.id ≡ true
id_in-get [] k d h = ground arith
id_in-get (e ∷ ds) zero d h = ground arith
id_in-get (e ∷ ds) (suc k) d h = ground (arith, id_in-get ds k d h)

module _ (p : Deployment → Bool) where
  -- Whether a row that passes has this id, among rows that do not have it.
  any-not_in :
      (ds : List Deployment) (i : RowId)
      → id_in ds i ≡ false
      → any (λ e. p e && e.id == i) ds ≡ false
  any-not_in [] i h = refl
  any-not_in (d ∷ ds) i h = ground (arith, any-not_in ds i)

  -- Some row that passes has the id of this row exactly when this row passes.
  pub any-at :
      (ds : List Deployment) (k : ℕ) (d : Deployment)
      → Distinct ds
      → get_elem? ds k ≡ some d
      → any (λ e. p e && e.id == d.id) ds ≡ p d
  any-at [] k d u h = ground arith
  any-at (e ∷ ds) zero d u h = ground (arith, any-not_in ds e.id u.0)
  any-at (e ∷ ds) (suc k) d u h = ground (arith, any-at ds k d u.1 h, id_in-get ds k d h)

  id_in-filter :
      (ds : List Deployment) (i : RowId) → id_in (filter p ds) i ≡ any (λ e. p e && e.id == i) ds
  id_in-filter [] i = refl
  id_in-filter (d ∷ ds) i = ground (arith, id_in-filter ds i)

id_in-insert_newest :
    (d : Deployment) (ds : List Deployment) (i : RowId)
    → id_in (insert_newest d ds) i ≡ (d.id == i || id_in ds i)
unfolding insert_newest
id_in-insert_newest d [] i = refl
id_in-insert_newest d (e ∷ ds) i = ground (arith, id_in-insert_newest d ds i)

id_in-newest_first : (ds : List Deployment) (i : RowId) → id_in (newest_first ds) i ≡ id_in ds i
unfolding newest_first
id_in-newest_first [] i = refl
id_in-newest_first (d ∷ ds) i =
    ground (arith, id_in-insert_newest d (newest_first ds) i, id_in-newest_first ds i)

pub id_in-drop :
    (n : ℕ) (ds : List Deployment) (i : RowId) → id_in (drop n ds) i ≡ true → id_in ds i ≡ true
id_in-drop zero ds i h = h
id_in-drop (suc n) [] i h = h
id_in-drop (suc n) (d ∷ ds) i h = ground (arith, id_in-drop n ds i)

-- A row that does not pass is not among the ids that an ORDER BY and OFFSET over passing rows picks.
pub not_picked :
    (p : Deployment → Bool) (n : ℕ) (ds : List Deployment) (k : ℕ) (d : Deployment)
    → Distinct ds
    → get_elem? ds k ≡ some d
    → p d ≡ false
    → id_in (drop n (newest_first (filter p ds))) d.id ≡ false
not_picked p n ds k d u h no_pass = ground (
  arith,
  id_in-drop n (newest_first (filter p ds)) d.id,
  id_in-newest_first (filter p ds) d.id,
  id_in-filter p ds d.id,
  any-at p ds k d u h,
)
