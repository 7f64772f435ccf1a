-- ===== src/Database/Index/Quiet.antt =====
-- UPDATEs that change no key and make no row active keep the unique indexes.
use ship_zen_gcp.Prelude.{◌≡◌, refl, Bool, true, List, Bool-cases, inl, inr}
use ship_zen_gcp.Database.{Deployment, in_flight}
use ship_zen_gcp.Database.Index.{same_key}
use ship_zen_gcp.Database.Index.Unique.{is_indexed, update-is_indexed, changed}
use ship_zen_gcp.Database.Statements.{update}

module _ (cond : Deployment → Bool) (set : Deployment → Deployment)
    (ids : (d : Deployment) → (set d).id ≡ d.id)
    (projects : (d : Deployment) → (set d).project ≡ d.project)
    (kinds : (d : Deployment) → (set d).kind ≡ d.kind)
    (numbers : (d : Deployment) → (set d).pr_number ≡ d.pr_number)
    (fewer : (d : Deployment) → in_flight (set d).state ≡ true → in_flight d.state ≡ true) where
  -- A column that `set` leaves is left by the statement.
  left_alone :
      {A : Type 0} (f : Deployment → A)
      → ((d : Deployment) → f (set d) ≡ f d)
      → (d : Deployment) → f (changed cond set d) ≡ f d
  left_alone f h d = elim (Bool-cases (cond d)) [ inl e ↦ rw e (h d) | inr e ↦ rw e refl ]

  changed_key :
      (d e : Deployment) → same_key (changed cond set d) (changed cond set e) ≡ same_key d e
  unfolding same_key
  changed_key d e =
      rw
        (
          left_alone (λ d. d.project) projects d,
          left_alone (λ d. d.project) projects e,
          left_alone (λ d. d.kind) kinds d,
          left_alone (λ d. d.kind) kinds e,
          left_alone (λ d. d.pr_number) numbers d,
          left_alone (λ d. d.pr_number) numbers e,
        )
        refl

  changed_fewer :
      (d : Deployment) → in_flight (changed cond set d).state ≡ true → in_flight d.state ≡ true
  changed_fewer d = elim (Bool-cases (cond d)) [ inl e ↦ rw e (fewer d) | inr e ↦ rw e (λ h. h) ]

  pub quiet-is_indexed :
      (rows : List Deployment) → is_indexed rows ≡ true → is_indexed (update cond set rows) ≡ true
  quiet-is_indexed rows h =
      update-is_indexed cond set (left_alone (λ d. d.id) ids) changed_key changed_fewer rows h
