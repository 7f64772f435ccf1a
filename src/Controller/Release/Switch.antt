-- ===== src/Controller/Release/Switch.antt =====
-- Blue-green: what a promotion and the sweeps after it do to the releases that are up.
use ship_zen_gcp.Prelude.{
  ℕ, ◌+◌, ◌<◌, ◌≤◌, ◌≡◌, refl, true, false, List, [], ◌∷◌, none, some, get_elem?, find?, ◌==◌,
  if◌then◌else◌, arith, ap, ◌∙◌, is_some,
}
use ship_zen_gcp.Database.{RowId, superseded, Deployment, Project, Tables, is_up}
use ship_zen_gcp.Database.Statements.{id_in, get_elem?-update}
use ship_zen_gcp.Database.Statements.Keys.{Distinct, update-Distinct, not_picked}
use ship_zen_gcp.Controller.Release.{
  Settings, is_left, is_scaled_down, old_releases, set_live, start_grace, supersede_old,
  promote_release, live_id, end_grace, is_over,
}

-- What a sweep does to one row.
pub end_grace-row :
    (now : ℕ) (p : RowId) (t : Tables) (k : ℕ) (d : Deployment)
    → get_elem? t.deployments k ≡ some d
    → get_elem? (end_grace now p t).deployments k
      ≡ some (
          if is_over now p t.projects d
          then record d { replicas = some 0; scale_down_after = none }
          else d)
unfolding end_grace
end_grace-row now p t k d at =
    get_elem?-update (is_over now p t.projects)
      (λ d. record d { replicas = some 0; scale_down_after = none }) t.deployments k d at

-- The subquery finds the release that has just been made live.
pub live_id-set_live :
    (p i : RowId) (ps : List Project)
    → is_some (find? (λ q. q.id == p) ps) ≡ true
    → live_id p (set_live p (some i) ps) ≡ some i
unfolding live_id set_live
live_id-set_live p i [] h = ground arith
live_id-set_live p i (q ∷ ps) h = ground (arith, live_id-set_live p i ps)

module _ (s : Settings) (now : ℕ) (p i : RowId) (t : Tables) where
  -- What a promotion does to one row that is no rollback target of the project.
  abbrev pub graced : Deployment → Deployment
  graced d = if is_left p i d then record d { scale_down_after = some (now + s.grace) } else d

  graced-same : (d : Deployment) → is_scaled_down p (graced d) ≡ is_scaled_down p d
  unfolding is_left is_scaled_down
  graced-same d = ground arith

  -- The tables when a sweep follows the promotion.
  abbrev pub after : ℕ → Tables
  after later = end_grace later p (promote_release s now p i t)

  module _ (distinct : Distinct t.deployments) where
    -- A promotion of one row that is no scaled-down release of the project.
    pub promote_release-graced :
        (k : ℕ) (d : Deployment)
        → get_elem? t.deployments k ≡ some d
        → is_scaled_down p d ≡ false
        → get_elem? (promote_release s now p i t).deployments k ≡ some (graced d)
    unfolding promote_release
    promote_release-graced k d at up =
        let rows = start_grace (now + s.grace) p i t.deployments in
        let until = λ (d : Deployment). record d { scale_down_after = some (now + s.grace) } in
        let here : get_elem? rows k ≡ some (graced d) =
          unfold start_grace in get_elem?-update (is_left p i) until t.deployments k d at in
        let kept : id_in (old_releases s.keep_releases p rows) (graced d).id ≡ false =
          unfold start_grace old_releases in
          not_picked (is_scaled_down p) s.keep_releases rows k (graced d)
            (update-Distinct (is_left p i) until (λ d. refl) t.deployments distinct) here
            (graced-same d ∙ up) in
        unfold supersede_old in
        get_elem?-update (λ d. id_in (old_releases s.keep_releases p rows) d.id)
          (λ d. record d { state = superseded }) rows k (graced d) here
        ∙ ap (λ b. some (if b then record (graced d) { state = superseded } else graced d)) kept

    up-not : (d : Deployment) → is_up d.replicas ≡ true → is_scaled_down p d ≡ false
    unfolding is_scaled_down is_up
    up-not d up = ground arith

    -- No gap: a release that is up, with no grace period running, is still up at every sweep before the
    -- new grace period is over.
    pub switch_no_gap :
        (k : ℕ) (d : Deployment) (later : ℕ)
        → get_elem? t.deployments k ≡ some d
        → is_up d.replicas ≡ true
        → d.scale_down_after ≡ none
        → later < now + s.grace
        → get_elem? (after later).deployments k ≡ some (graced d)
    switch_no_gap k d later at up fresh early =
        let e = graced d in
        let spared : is_over later p (promote_release s now p i t).projects e ≡ false =
          unfold is_over is_left in ground arith in
        end_grace-row later p (promote_release s now p i t) k e
          (promote_release-graced k d at (up-not d up))
        ∙ ap (λ b. some (if b then record e { replicas = some 0; scale_down_after = none } else e))
            spared

    -- The projects after the promotion name the release that went live.
    live_now :
        is_some (find? (λ q. q.id == p) t.projects) ≡ true
        → live_id p (promote_release s now p i t).projects ≡ some i
    unfolding promote_release
    live_now known = live_id-set_live p i t.projects known

    -- The end of the switch: once the grace period is over, a sweep scales each release that was left
    -- behind to 0.
    pub switch_ends :
        (k : ℕ) (d : Deployment) (later : ℕ)
        → get_elem? t.deployments k ≡ some d
        → is_left p i d ≡ true
        → is_some (find? (λ q. q.id == p) t.projects) ≡ true
        → now + s.grace ≤ later
        → get_elem? (after later).deployments k
          ≡ some (record d { replicas = some 0; scale_down_after = none })
    switch_ends k d later at left known late =
        let e = graced d in
        let up : is_up d.replicas ≡ true = unfold is_left in ground arith in
        let over : is_over later p (promote_release s now p i t).projects e ≡ true =
          unfold is_over is_left in ground (arith, live_now known) in
        end_grace-row later p (promote_release s now p i t) k e
          (promote_release-graced k d at (up-not d up))
        ∙ ap (λ b. some (if b then record e { replicas = some 0; scale_down_after = none } else e))
            over
        ∙ ap
            (λ b.
              some (record (if b then record d { scale_down_after = some (now + s.grace) } else d) {
                replicas = some 0;
                scale_down_after = none;
              }))
            left

    -- The release that went live is left exactly as it was by the UPDATE with which any later sweep ends
    -- the grace periods, even with one left over from before an instant rollback.
    pub live_stays :
        (k : ℕ) (d : Deployment) (later : ℕ)
        → get_elem? t.deployments k ≡ some d
        → d.id ≡ i
        → is_up d.replicas ≡ true
        → is_some (find? (λ q. q.id == p) t.projects) ≡ true
        → get_elem? (after later).deployments k ≡ some d
    live_stays k d later at mine up known =
        let e = graced d in
        let same : graced d ≡ d = unfold is_left in ground arith in
        let spared : is_over later p (promote_release s now p i t).projects d ≡ false =
          unfold is_over in ground (arith, live_now known) in
        end_grace-row later p (promote_release s now p i t) k d
          (promote_release-graced k d at (up-not d up) ∙ ap some same)
        ∙ ap (λ b. some (if b then record d { replicas = some 0; scale_down_after = none } else d))
            spared
