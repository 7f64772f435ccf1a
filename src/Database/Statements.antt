-- ===== src/Database/Statements.antt =====
-- `UPDATE ... SET ... WHERE ...`, `ORDER BY created_at DESC` and `OFFSET`, with what the proofs about
-- such statements share.
pub mod Keys
pub mod Order
use ship_zen_gcp.Prelude.{
  ℕ, zero, suc, ◌+◌, ◌≤◌, ◌≡◌, refl, ap, Bool, true, false, not, ◌&&◌, ◌||◌, List, [], ◌∷◌, ◌++◌,
  count, filter, length, get_elem?, some, take, drop, count-append, take-append-drop, length-take,
  leb, ◌==◌, if◌then◌else◌, any, arith, map,
}
use ship_zen_gcp.Database.{RowId, Deployment}

-- `UPDATE t SET set WHERE cond`
unfoldable pub update {ℓ} : {A : Type ℓ} → (A → Bool) → (A → A) → List A → List A
update cond set [] = []
update cond set (r ∷ rs) = (if cond r then set r else r) ∷ update cond set rs

-- `ORDER BY created_at DESC`. Rows of one instant keep their order in the table, which the database
-- does not promise; no theorem depends on it.
pub insert_newest : Deployment → List Deployment → List Deployment
insert_newest d [] = d ∷ []
insert_newest d (e ∷ es) =
    let rest = insert_newest d es in if leb e.created_at d.created_at then d ∷ e ∷ es else e ∷ rest

unfoldable pub newest_first : List Deployment → List Deployment
unfolding insert_newest
newest_first [] = []
newest_first (d ∷ ds) = insert_newest d (newest_first ds)

-- `deployment_id IN (...)`
abbrev pub id_in : List Deployment → RowId → Bool
id_in rows i = any (λ d. d.id == i) rows

module _ (p : Deployment → Bool) where
  count-insert_newest :
      (d : Deployment) (es : List Deployment) → count p (insert_newest d es) ≡ count p (d ∷ es)
  unfolding insert_newest
  count-insert_newest d [] = refl
  count-insert_newest d (e ∷ es) = ground (arith, count-insert_newest d es)

  pub count-newest_first : (ds : List Deployment) → count p (newest_first ds) ≡ count p ds
  unfolding newest_first
  count-newest_first [] = refl
  count-newest_first (d ∷ ds) =
      omega (arith, count-insert_newest d (newest_first ds), count-newest_first ds)

module _ {ℓ} {A : Type ℓ} (p : A → Bool) where
  pub count-le-length : (xs : List A) → count p xs ≤ length xs
  count-le-length [] = omega arith
  count-le-length (x ∷ xs) = ground (arith, count-le-length xs)

  pub count-filter :
      (q : A → Bool) (xs : List A) → count p (filter q xs) ≡ count (λ x. q x && p x) xs
  count-filter q [] = refl
  count-filter q (x ∷ xs) = ground (arith, count-filter q xs)

  -- Rows that no longer pass once they are set are not counted any more.
  pub count-update :
      (cond : A → Bool) (set : A → A)
      → ((x : A) → p (set x) ≡ false)
      → (xs : List A) → count p (update cond set xs) ≡ count (λ x. p x && not (cond x)) xs
  unfolding update
  count-update cond set h [] = refl
  count-update cond set h (x ∷ xs) = ground (arith, h x, count-update cond set h xs)

module _ {ℓ} {A : Type ℓ} where
  pub get_elem?-update :
      (cond : A → Bool) (set : A → A) (xs : List A) (k : ℕ) (x : A)
      → get_elem? xs k ≡ some x
      → get_elem? (update cond set xs) k ≡ some (if cond x then set x else x)
  unfolding update
  get_elem?-update cond set [] k x h = ground arith
  get_elem?-update cond set (y ∷ xs) zero x h = ground arith
  get_elem?-update cond set (y ∷ xs) (suc k) x h = get_elem?-update cond set xs k x h
