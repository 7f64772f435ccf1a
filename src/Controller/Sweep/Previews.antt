-- ===== src/Controller/Sweep/Previews.antt =====
-- Previews stay apart: what a sweep does for a preview touches neither the live release nor any
-- production deployment.
use ship_zen_gcp.Prelude.{
  ℕ, ◌≡◌, refl, ap, ◌∙◌, Bool, true, false, not, ◌||◌, Option, none, some, get_elem?, ◌==◌,
  if◌then◌else◌, arith,
}
use ship_zen_gcp.Database.{
  RowId, State, running, failed, superseded, Failure, crash_loop, not_ready, Deployment, Project,
  Tables, is_production,
}
use ship_zen_gcp.Database.Statements.{get_elem?-update}
use ship_zen_gcp.Controller.Release.{Settings}
use ship_zen_gcp.Controller.Sweep.{
  Seen, Swept, Verdict, nothing, counted, crashed, waiting, timed_out, now_running, verdict,
  is_replaced, set_state, replace_previews, go_live, act, is_drifted, commit_manifest, look,
  is_wanted, crashes_of, step,
}

-- The projects are as before, and so is the row of the other, a production deployment.
abbrev pub Apart : ℕ → Deployment → Tables → Tables → Type 0
Apart j other before after =
    (after.projects ≡ before.projects) × (get_elem? after.deployments j ≡ some other)

module _ (j : ℕ) (other d : Deployment) (apart : (other.id == d.id) ≡ false)
    (is_release : is_production other.kind ≡ true) where
  set_state-Apart :
      (s : State) (e : Option Failure) (t : Tables)
      → get_elem? t.deployments j ≡ some other
      → Apart j other t (set_state d.id s e t)
  unfolding set_state
  set_state-Apart s e t at =
      let written = λ (x : Deployment). record x { state = s; last_error = e } in
      (
        refl,
        get_elem?-update (λ x. x.id == d.id) written t.deployments j other at
            ∙ ap (λ b. some (if b then written other else other)) apart,
      )

  not_replaced : (p : RowId) → is_replaced p d other ≡ false
  unfolding is_replaced
  not_replaced p = ground (arith, is_release)

  replace_previews-Apart :
      (p : RowId) (t : Tables)
      → get_elem? t.deployments j ≡ some other
      → Apart j other t (replace_previews p d t)
  unfolding replace_previews
  replace_previews-Apart p t at = (
    refl,
    get_elem?-update (is_replaced p d) (λ x. record x { state = superseded }) t.deployments j other
          at
        ∙ ap (λ b. some (if b then record other { state = superseded } else other))
            (not_replaced p),
  )

  module _ (s : Settings) (now : ℕ) (is_preview : is_production d.kind ≡ false) where
    go_live-Apart :
        (p : RowId) (t : Tables)
        → get_elem? t.deployments j ≡ some other
        → Apart j other t (go_live s now p d t)
    unfolding go_live
    go_live-Apart p t at =
        let first = set_state-Apart running none t at in
        let then_ = replace_previews-Apart p (set_state d.id running none t) first.1 in
        rw is_preview (then_.0 ∙ first.0, then_.1)

    act-Apart :
        (p : RowId) (v : Verdict) (w : Swept)
        → get_elem? w.tables.deployments j ≡ some other
        → Apart j other w.tables (act s now p d v w).tables
    unfolding act
    act-Apart p nothing w at = (refl, at)
    act-Apart p counted w at = (refl, at)
    act-Apart p crashed w at = set_state-Apart failed (some crash_loop) w.tables at
    act-Apart p waiting w at = (refl, at)
    act-Apart p timed_out w at = set_state-Apart failed (some not_ready) w.tables at
    act-Apart p now_running w at = go_live-Apart p w.tables at

    if-Apart :
        (b : Bool) (t : Tables) (x y : Swept)
        → Apart j other t x.tables
        → Apart j other t y.tables
        → Apart j other t (if b then x else y).tables
    if-Apart true t x y h k = h
    if-Apart false t x y h k = k

    drift-tables :
        (b : Bool) (q : Project) (w : Swept)
        → (if b then commit_manifest q d w else w).tables ≡ w.tables
    unfolding commit_manifest
    drift-tables true q w = refl
    drift-tables false q w = refl

    look-Apart :
        (q : Project) (o : Option Seen) (w : Swept)
        → get_elem? w.tables.deployments j ≡ some other
        → Apart j other w.tables (look s now q d o w).tables
    unfolding commit_manifest
    look-Apart q none w at = if-Apart _ w.tables w (commit_manifest q d w) (refl, at) (refl, at)
    look-Apart q (some k) w at =
        let drifts = is_drifted q d k || not k.complete in
        let w' = if drifts then commit_manifest q d w else w in
        let same : w'.tables ≡ w.tables = drift-tables drifts q w in
        let kept =
          act-Apart q.id (verdict now (crashes_of d.id w'.crashes) d k) w'
            (ap (λ (t : Tables). get_elem? t.deployments j) same ∙ at) in
        (kept.0 ∙ ap (λ (t : Tables). t.projects) same, kept.1)

    -- A sweep's step for a preview, whatever the cluster shows of it, leaves every project as it was, so
    -- a preview never becomes the live release, and leaves every production deployment as it was.
    pub step-Apart :
        (q : Project) (view : RowId → Option Seen) (w : Swept)
        → get_elem? w.tables.deployments j ≡ some other
        → Apart j other w.tables (step s now q view d w).tables
    unfolding step
    step-Apart q view w at =
        if-Apart (is_wanted d.state) w.tables (look s now q d (view d.id) w) w
          (look-Apart q (view d.id) w at) (refl, at)
