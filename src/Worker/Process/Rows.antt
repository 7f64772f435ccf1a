-- ===== src/Worker/Process/Rows.antt =====
-- What the worker's statements do to the row of the deployment that a message names.
use ship_zen_gcp.Prelude.{
  ℕ, ◌≡◌, refl, Bool, true, false, List, [], ◌∷◌, Option, none, some, find?, ◌==◌, Bool-cases, inl,
  inr, arith,
}
use ship_zen_gcp.Database.{RowId, State, Failure, Deployment}
use ship_zen_gcp.Database.Statements.{update}
use ship_zen_gcp.Worker.World.{World, when, modify}
use ship_zen_gcp.Worker.World.Rules.{Triple, Triple-bind, Triple-weaken, Keeps-when}
use ship_zen_gcp.Worker.Store.{use_db, update_row, set_state, is_failed, breaks_index, update_state}
use ship_zen_gcp.Worker.Keeping.{OffBooks, use_db-Keeps}
use ship_zen_gcp.Worker.Keeping.Cluster.{OffCluster}

abbrev pub passes : (Deployment → Bool) → Option Deployment → Bool
passes f none = false
passes f (some d) = f d

-- The row with this id is there and passes `f`.
abbrev pub Row : (Deployment → Bool) → RowId → World → Type 0
Row f i w = passes f (find? (λ d. d.id == i) w.deployments) ≡ true

abbrev pub anything : Deployment → Bool
anything d = true

module _ (f : Deployment → Bool) (i : RowId) where
  pub Row-OffBooks : OffBooks (Row f i)
  Row-OffBooks = record {
    faults = λ b fs w e h. h;
    notes = λ ns w h. h;
    builds = λ bs w h. h;
    jobs = λ js w h. h;
  }

  pub Row-OffCluster : OffCluster (Row f i)
  Row-OffCluster = record { secrets = λ ss w h. h; held = λ ss w h. h; workspaces = λ ks w h. h }

  -- An UPDATE by the primary key changes that row, and it is found again.
  pub passes-update :
      (g : Deployment → Bool) (set : Deployment → Deployment)
      → ((d : Deployment) → (set d).id ≡ d.id)
      → ((d : Deployment) → f d ≡ true → g (set d) ≡ true)
      → (ds : List Deployment) → passes f (find? (λ d. d.id == i) ds) ≡ true
      → passes g (find? (λ d. d.id == i) (update (λ d. d.id == i) set ds)) ≡ true
  unfolding update
  passes-update g set same better [] h = ground arith
  passes-update g set same better (d ∷ ds) h =
      let rest = passes-update g set same better ds in ground (arith, same d, better d)

pub Row-anything : (f : Deployment → Bool) (i : RowId) (w : World) → Row f i w → Row anything i w
Row-anything f i w h = ground arith

module _ (f g : Deployment → Bool) (i : RowId) where
  pub update_row-Row :
      (set : Deployment → Deployment)
      → ((d : Deployment) → (set d).id ≡ d.id)
      → ((d : Deployment) → f d ≡ true → g (set d) ≡ true)
      → Triple (Row f i) (update_row i set) (λ _. Row g i) (Row f i)
  unfolding update_row modify
  update_row-Row set same better =
      Triple-bind (λ _. Row f i) _ _ (use_db-Keeps (Row-OffBooks f i))
        (λ _. record { run = λ w h. passes-update f i g set same better w.deployments h })

  set_state-Row :
      (s : State) (e : Option Failure)
      → ((d : Deployment) (now : ℕ)
          → f d ≡ true
          → g (record d { state = s; last_error = e; updated_at = now }) ≡ true)
      → Triple (Row f i) (set_state i s e) (λ _. Row g i) (Row f i)
  set_state-Row s e better = record {
    run = λ w h. elim (Bool-cases (breaks_index i s w.deployments)) [
      | inl p ↦ rw p h
      | inr p ↦ rw p (
          passes-update f i g (λ d. record d { state = s; last_error = e; updated_at = w.now })
            (λ d. refl) (λ d. better d w.now) w.deployments h)
    ];
  }

  -- A change of state that returns has been written. One that raises may have been, too.
  pub update_state-Row :
      (s : State) (e : Option Failure)
      → ((d : Deployment) (now : ℕ)
          → f d ≡ true
          → g (record d { state = s; last_error = e; updated_at = now }) ≡ true)
      → Triple (Row f i) (update_state i s e) (λ _. Row g i) (Row anything i)
  unfolding update_state
  update_state-Row s e better =
      Triple-bind (λ _. Row f i) _ _
        (Triple-weaken use_db (use_db-Keeps (Row-OffBooks f i)) (λ w h. h) (λ a w h. h)
          (Row-anything f i))
        (λ _.
          Triple-bind (λ _. Row g i) _ _
            (Triple-weaken (set_state i s e) (set_state-Row s e better) (λ w h. h) (λ a w h. h)
              (Row-anything f i))
            (λ _.
              Triple-weaken (when (is_failed s) use_db)
                (Keeps-when (is_failed s) use_db (use_db-Keeps (Row-OffBooks g i))) (λ w h. h)
                (λ a w h. h) (Row-anything g i)))
