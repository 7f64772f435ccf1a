-- ===== src/Controller/Sweep/Keeping.antt =====
-- What every write of a sweep keeps, a whole sweep keeps.
use ship_zen_gcp.Prelude.{
  ℕ, ◌≡◌, refl, Bool, true, false, not, ◌||◌, List, [], ◌∷◌, Option, none, some, filter, ◌==◌,
  if◌then◌else◌, Bool-cases, inl, inr,
}
use ship_zen_gcp.Database.{
  RowId, State, running, failed, Failure, crash_loop, not_ready, Deployment, Project, Tables,
  in_flight, is_production,
}
use ship_zen_gcp.Controller.Release.{Settings, promote_release, end_grace}
use ship_zen_gcp.Controller.Sweep.{
  Seen, Swept, Verdict, nothing, counted, crashed, waiting, timed_out, now_running, verdict,
  set_state, replace_previews, go_live, act, is_drifted, commit_manifest, look, is_wanted,
  crashes_of, step, steps, reconcile_deployments,
}

-- `P` survives each write: to a state that is not in flight, for previews, for a promotion, and at the
-- end of a grace period.
pub record Survives (P : Tables → Type 0) : Type 0 where
  pub states :
      (i : RowId) (s : State) (e : Option Failure) (t : Tables)
      → in_flight s ≡ false
      → P t
      → P (set_state i s e t)
  pub previews : (p : RowId) (d : Deployment) (t : Tables) → P t → P (replace_previews p d t)
  pub promotions :
      (s : Settings) (now : ℕ) (p i : RowId) (t : Tables) → P t → P (promote_release s now p i t)
  pub graces : (now : ℕ) (p : RowId) (t : Tables) → P t → P (end_grace now p t)

module _ {P : Tables → Type 0} (k : Survives P) where
  go_live-P :
      (s : Settings) (now : ℕ) (p : RowId) (d : Deployment) (t : Tables)
      → P t
      → P (go_live s now p d t)
  unfolding go_live in_flight
  go_live-P s now p d t h =
      let t' = set_state d.id running none t in
      let h' = k.states d.id running none t refl h in
      elim (Bool-cases (is_production d.kind)) [
        | inl e ↦ rw e (k.promotions s now p d.id t' h')
        | inr e ↦ rw e (k.previews p d t' h')
      ]

  act-P :
      (s : Settings) (now : ℕ) (p : RowId) (d : Deployment) (v : Verdict) (w : Swept)
      → P w.tables
      → P (act s now p d v w).tables
  unfolding act in_flight
  act-P s now p d nothing w h = h
  act-P s now p d counted w h = h
  act-P s now p d crashed w h = k.states d.id failed (some crash_loop) w.tables refl h
  act-P s now p d waiting w h = h
  act-P s now p d timed_out w h = k.states d.id failed (some not_ready) w.tables refl h
  act-P s now p d now_running w h = go_live-P s now p d w.tables h

  module _ (s : Settings) (now : ℕ) (q : Project) (view : RowId → Option Seen) where
    if-P : (b : Bool) (x y : Swept) → P x.tables → P y.tables → P (if b then x else y).tables
    if-P true x y h k = h
    if-P false x y h k = k

    look-P :
        (d : Deployment) (o : Option Seen) (w : Swept) → P w.tables → P (look s now q d o w).tables
    unfolding commit_manifest
    look-P d none w h = if-P _ w (commit_manifest q d w) h h
    look-P d (some seen) w h =
        let w' = if is_drifted q d seen || not seen.complete then commit_manifest q d w else w in
        act-P s now q.id d (verdict now (crashes_of d.id w'.crashes) d seen) w'
          (if-P (is_drifted q d seen || not seen.complete) (commit_manifest q d w) w h h)

    steps-P : (ds : List Deployment) (w : Swept) → P w.tables → P (steps s now q view ds w).tables
    unfolding step
    steps-P [] w h = h
    steps-P (d ∷ ds) w h =
        steps-P ds (step s now q view d w)
          (if-P (is_wanted d.state) (look s now q d (view d.id) w) w (look-P d (view d.id) w h) h)

    pub reconcile_deployments-P :
        (w : Swept) → P w.tables → P (reconcile_deployments s now q view w).tables
    unfolding reconcile_deployments
    reconcile_deployments-P w h =
        steps-P (filter (λ d. d.project == q.id) (end_grace now q.id w.tables).deployments)
          (record w { tables = end_grace now q.id w.tables }) (k.graces now q.id w.tables h)
