-- ===== src/Controller/Sweep/Indexes.antt =====
-- A sweep keeps the unique indexes.
use ship_zen_gcp.Prelude.{ℕ, ◌+◌, ◌≡◌, refl, Bool, true, false, Option, none, some, ◌==◌, arith}
use ship_zen_gcp.Database.{
  RowId, State, superseded, Failure, Deployment, Project, Tables, in_flight,
}
use ship_zen_gcp.Database.Index.Quiet.{quiet-is_indexed}
use ship_zen_gcp.Database.Index.Unique.{is_indexed}
use ship_zen_gcp.Database.Statements.{id_in}
use ship_zen_gcp.Controller.Release.{
  Settings, promote_release, start_grace, supersede_old, is_left, old_releases, end_grace, is_over,
}
use ship_zen_gcp.Controller.Sweep.Keeping.{Survives, reconcile_deployments-P}
use ship_zen_gcp.Controller.Sweep.{
  Seen, Swept, is_replaced, set_state, replace_previews, reconcile_deployments,
}

abbrev Indexed : Tables → Type 0
Indexed t = is_indexed t.deployments ≡ true

inactive : (s : State) (b : Bool) → in_flight s ≡ false → in_flight s ≡ true → b ≡ true
inactive s b h k = ground arith

set_state-Indexed :
    (i : RowId) (s : State) (e : Option Failure) (t : Tables)
    → in_flight s ≡ false
    → Indexed t
    → Indexed (set_state i s e t)
unfolding set_state
set_state-Indexed i s e t off h =
    quiet-is_indexed (λ d. d.id == i) (λ d. record d { state = s; last_error = e }) (λ d. refl)
      (λ d. refl) (λ d. refl) (λ d. refl) (λ d k. inactive s (in_flight d.state) off k)
      t.deployments h

replace_previews-Indexed :
    (p : RowId) (d : Deployment) (t : Tables) → Indexed t → Indexed (replace_previews p d t)
unfolding replace_previews in_flight
replace_previews-Indexed p d t h =
    quiet-is_indexed (is_replaced p d) (λ e. record e { state = superseded }) (λ d. refl)
      (λ d. refl) (λ d. refl) (λ d. refl) (λ d k. inactive superseded (in_flight d.state) refl k)
      t.deployments h

promote_release-Indexed :
    (s : Settings) (now : ℕ) (p i : RowId) (t : Tables)
    → Indexed t
    → Indexed (promote_release s now p i t)
unfolding promote_release start_grace supersede_old in_flight
promote_release-Indexed s now p i t h =
    let rows = start_grace (now + s.grace) p i t.deployments in
    quiet-is_indexed (λ d. id_in (old_releases s.keep_releases p rows) d.id)
      (λ d. record d { state = superseded }) (λ d. refl) (λ d. refl) (λ d. refl) (λ d. refl)
      (λ d k. inactive superseded (in_flight d.state) refl k) rows
      (quiet-is_indexed (is_left p i) (λ d. record d { scale_down_after = some (now + s.grace) })
        (λ d. refl) (λ d. refl) (λ d. refl) (λ d. refl) (λ d k. k) t.deployments h)

end_grace-Indexed : (now : ℕ) (p : RowId) (t : Tables) → Indexed t → Indexed (end_grace now p t)
unfolding end_grace
end_grace-Indexed now p t h =
    quiet-is_indexed (is_over now p t.projects)
      (λ d. record d { replicas = some 0; scale_down_after = none }) (λ d. refl) (λ d. refl)
      (λ d. refl) (λ d. refl) (λ d k. k) t.deployments h

Indexed-Survives : Survives Indexed
Indexed-Survives = record {
  states = set_state-Indexed;
  previews = replace_previews-Indexed;
  promotions = promote_release-Indexed;
  graces = end_grace-Indexed;
}

-- A whole sweep, whatever the cluster shows, keeps at most one active production deployment of a
-- project and at most one active preview of a pull request: none of its writes can break an index.
pub reconcile_deployments-is_indexed :
    (s : Settings) (now : ℕ) (q : Project) (view : RowId → Option Seen) (w : Swept)
    → is_indexed w.tables.deployments ≡ true
    → is_indexed (reconcile_deployments s now q view w).tables.deployments ≡ true
reconcile_deployments-is_indexed = reconcile_deployments-P Indexed-Survives
