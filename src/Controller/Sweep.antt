-- ===== src/Controller/Sweep.antt =====
-- controller/main.py: `reconcile_deployments`, one sweep over the deployments of a project. The clock is
-- in seconds.
pub mod Keeping
pub mod Indexes
pub mod Previews
pub mod Healthy
use ship_zen_gcp.Prelude.{
  ℕ, zero, suc, ◌+◌, ◌-◌, Bool, true, false, not, ◌&&◌, ◌||◌, List, [], ◌∷◌, ◌++◌, Text, Option,
  none, some, filter, find?, any, text_eq, codes, ltb, leb, ◌==◌, if◌then◌else◌, get_or,
}
use ship_zen_gcp.Database.{
  RowId, State, queued, building, deploying, verifying, running, failed, superseded, Failure,
  crash_loop, not_ready, Kind, production, preview, Deployment, Project, Tables, is_running,
  is_production,
}
use ship_zen_gcp.Database.Index.{same_number}
use ship_zen_gcp.Database.Statements.{update, id_in}
use ship_zen_gcp.Controller.Release.{Settings, promote_release, end_grace}
use ship_zen_gcp.Controller.Scaling.{Key, same_key_as, release_scaling}
use ship_zen_gcp.Controller.Manifest.{Manifest, manifest_of, pinned_image}

-- A Deployment of the cluster: its spec and annotation, its status, and whether its Service, route and
-- ExternalSecret are there.
pub record Seen : Type 0 where
  pub replicas : Option ℕ
  pub image : Text
  pub key : Option Key
  pub ready : ℕ
  pub progressing : Bool
  pub complete : Bool

-- What a sweep changes: the tables, the count of crashes (`_deployment_failures`), and the manifests
-- committed to git.
pub record Swept : Type 0 where
  pub tables : Tables
  pub crashes : List (RowId × ℕ)
  pub commits : List Manifest

abbrev pub crashes_of : RowId → List (RowId × ℕ) → ℕ
crashes_of i [] = 0
crashes_of i (e ∷ es) = if e.0 == i then e.1 else crashes_of i es

abbrev pub forget : RowId → List (RowId × ℕ) → List (RowId × ℕ)
forget i es = filter (λ e. not (e.0 == i)) es

abbrev pub count_crash : RowId → List (RowId × ℕ) → List (RowId × ℕ)
count_crash i es = (i, suc (crashes_of i es)) ∷ forget i es

-- `state in ['Running', 'Verifying', 'Deploying']`
abbrev pub is_wanted : State → Bool
is_wanted running = true
is_wanted verifying = true
is_wanted deploying = true
is_wanted s = false

-- `state in ['Deploying', 'Verifying']`
abbrev pub is_coming : State → Bool
is_coming deploying = true
is_coming verifying = true
is_coming s = false

abbrev is_verifying : State → Bool
is_verifying verifying = true
is_verifying s = false

-- What a look at a deployment's pods decides.
pub data Verdict : Type 0 where
  nothing counted crashed waiting timed_out now_running : Verdict

unfoldable pub verdict : ℕ → ℕ → Deployment → Seen → Verdict
unfolding is_running
verdict now crashes d k =
    if k.ready == 0
    then (if is_running d.state && not (get_or d.replicas 0 == 0)
        then (if leb 2 (suc crashes) && not k.progressing then crashed else counted)
        else if is_coming d.state
        then (if ltb 300 (now - d.updated_at) then timed_out else waiting)
        else nothing)
    else if is_coming d.state
    then now_running
    else nothing

-- `UPDATE deployments SET state = ..., last_error = ... WHERE deployment_id = ...`
unfoldable pub set_state : RowId → State → Option Failure → Tables → Tables
unfolding update
set_state i s e t = record t {
  deployments = update (λ d. d.id == i) (λ d. record d { state = s; last_error = e }) t.deployments;
}

-- The previous previews of the pull request. A NULL number equals nothing.
unfoldable pub is_replaced : RowId → Deployment → Deployment → Bool
unfolding is_production is_running
is_replaced p d e =
    e.project == p
    && not (is_production e.kind)
    && same_number e.pr_number d.pr_number
    && not (e.id == d.id)
    && is_running e.state

unfoldable pub replace_previews : RowId → Deployment → Tables → Tables
unfolding update is_replaced
replace_previews p d t = record t {
  deployments = update (is_replaced p d) (λ e. record e { state = superseded }) t.deployments;
}

unfoldable pub go_live : Settings → ℕ → RowId → Deployment → Tables → Tables
unfolding set_state replace_previews promote_release is_production
go_live s now p d t =
    let t' = set_state d.id running none t in
    if is_production d.kind then promote_release s now p d.id t' else replace_previews p d t'

unfoldable pub act : Settings → ℕ → RowId → Deployment → Verdict → Swept → Swept
unfolding set_state go_live
act s now p d nothing w = w
act s now p d counted w = record w { crashes = count_crash d.id w.crashes }
act s now p d crashed w = record w {
  crashes = count_crash d.id w.crashes;
  tables = set_state d.id failed (some crash_loop) w.tables;
}
act s now p d waiting w = record w { crashes = forget d.id w.crashes }
act s now p d timed_out w = record w {
  crashes = forget d.id w.crashes;
  tables = set_state d.id failed (some not_ready) w.tables;
}
act s now p d now_running w = record w {
  crashes = forget d.id w.crashes;
  tables = go_live s now p d w.tables;
}

-- With an HPA the count is the HPA's; else count, annotation and image must be those of the tables.
unfoldable pub is_drifted : Project → Deployment → Seen → Bool
unfolding release_scaling pinned_image
is_drifted q d k =
    let r = release_scaling q d in
    (not r.autoscale && not (get_or k.replicas 1 == r.replicas))
    || not (same_key_as k.key r.key)
    || not (text_eq k.image (pinned_image d))

unfoldable pub commit_manifest : Project → Deployment → Swept → Swept
unfolding manifest_of
commit_manifest q d w = record w { commits = w.commits ++ manifest_of q d ∷ [] }

-- One deployment of the snapshot. Without a Deployment in the cluster one is made, unless the release
-- is still verifying; there is nothing to look at then.
abbrev pub look : Settings → ℕ → Project → Deployment → Option Seen → Swept → Swept
look s now q d none w = if is_verifying d.state then w else commit_manifest q d w
look s now q d (some k) w =
    let w' = if is_drifted q d k || not k.complete then commit_manifest q d w else w in
    act s now q.id d (verdict now (crashes_of d.id w'.crashes) d k) w'

unfoldable pub step : Settings → ℕ → Project → (RowId → Option Seen) → Deployment → Swept → Swept
unfolding is_drifted commit_manifest verdict act
step s now q view d w = if is_wanted d.state then look s now q d (view d.id) w else w

abbrev pub steps : Settings → ℕ → Project → (RowId → Option Seen) → List Deployment → Swept → Swept
steps s now q view [] w = w
steps s now q view (d ∷ ds) w = steps s now q view ds (step s now q view d w)

-- The rows are read once, after the grace periods that are over; the steps work on that snapshot.
unfoldable pub reconcile_deployments :
    Settings → ℕ → Project → (RowId → Option Seen) → Swept → Swept
unfolding end_grace step
reconcile_deployments s now q view w =
    let t = end_grace now q.id w.tables in
    steps s now q view (filter (λ d. d.project == q.id) t.deployments) (record w { tables = t })

-- `_LIVE_STATES`
abbrev is_kept : State → Bool
is_kept failed = false
is_kept superseded = false
is_kept s = true

-- The Deployments of the namespace whose manifest, Service and route are deleted.
unfoldable pub orphans : List Deployment → List RowId → List RowId
orphans snapshot names = filter (λ i. not (any (λ d. d.id == i && is_kept d.state) snapshot)) names
