-- ===== src/Controller/Sweep/Healthy.antt =====
-- A deployment with a ready pod fails nothing.
use ship_zen_gcp.Prelude.{
  ℕ, ◌+◌, ◌≤◌, ◌≡◌, refl, Bool, true, false, not, ◌&&◌, ◌||◌, List, [], ◌∷◌, Option, none, some,
  count, ◌==◌, if◌then◌else◌, Bool-cases, inl, inr, arith,
}
use ship_zen_gcp.Database.{
  RowId, State, running, failed, superseded, Deployment, Project, Tables, is_production,
}
use ship_zen_gcp.Database.Statements.{update, count-update, id_in}
use ship_zen_gcp.Controller.Release.{
  Settings, promote_release, start_grace, supersede_old, is_left, old_releases,
}
use ship_zen_gcp.Controller.Sweep.{
  Seen, Swept, Verdict, nothing, now_running, is_coming, verdict, is_replaced, set_state,
  replace_previews, go_live, act, is_drifted, commit_manifest, look, is_wanted, crashes_of, step,
}

abbrev pub has_failed : Deployment → Bool
has_failed d = is_failed d.state
  where
    is_failed : State → Bool
    is_failed failed = true
    is_failed s = false

abbrev pub failures : Tables → ℕ
failures t = count has_failed t.deployments

count-weaker :
    (p c : Deployment → Bool) (ds : List Deployment) → count (λ d. p d && not (c d)) ds ≤ count p ds
count-weaker p c [] = omega arith
count-weaker p c (d ∷ ds) = ground (arith, count-weaker p c ds)

-- A statement that sets no row to `Failed`.
cleared :
    (cond : Deployment → Bool) (set : Deployment → Deployment)
    → ((d : Deployment) → has_failed (set d) ≡ false)
    → (ds : List Deployment) → count has_failed (update cond set ds) ≤ count has_failed ds
cleared cond set h ds =
    omega (arith, count-update has_failed cond set h ds, count-weaker has_failed cond ds)

-- A statement that leaves the state alone.
untouched :
    (cond : Deployment → Bool) (set : Deployment → Deployment)
    → ((d : Deployment) → has_failed (set d) ≡ has_failed d)
    → (ds : List Deployment) → count has_failed (update cond set ds) ≤ count has_failed ds
unfolding update
untouched cond set h [] = omega arith
untouched cond set h (d ∷ ds) = ground (arith, h d, untouched cond set h ds)

promote_release-failures :
    (s : Settings) (now : ℕ) (p i : RowId) (t : Tables)
    → failures (promote_release s now p i t) ≤ failures t
unfolding promote_release start_grace supersede_old
promote_release-failures s now p i t =
    let rows = start_grace (now + s.grace) p i t.deployments in
    omega (
      arith,
      cleared (λ d. id_in (old_releases s.keep_releases p rows) d.id)
          (λ d. record d { state = superseded }) (λ d. refl) rows,
      untouched (is_left p i) (λ d. record d { scale_down_after = some (now + s.grace) })
          (λ d. refl) t.deployments,
    )

go_live-failures :
    (s : Settings) (now : ℕ) (p : RowId) (d : Deployment) (t : Tables)
    → failures (go_live s now p d t) ≤ failures t
unfolding go_live set_state replace_previews
go_live-failures s now p d t =
    let written = λ (x : Deployment). record x { state = running; last_error = none } in
    let t' = set_state d.id running none t in
    let first = cleared (λ x. x.id == d.id) written (λ x. refl) t.deployments in
    elim (Bool-cases (is_production d.kind)) [
      | inl e ↦ rw e (omega (arith, first, promote_release-failures s now p d.id t'))
      | inr e ↦ rw e (
          omega (
            arith,
            first,
            cleared (is_replaced p d) (λ x. record x { state = superseded }) (λ x. refl)
                t'.deployments,
          ))
    ]

-- With a ready pod there are two verdicts.
ready_verdict :
    (P : Verdict → Type 0) (now crashes : ℕ) (d : Deployment) (k : Seen)
    → (k.ready == 0) ≡ false
    → P nothing
    → P now_running
    → P (verdict now crashes d k)
unfolding verdict
ready_verdict P now crashes d k ready quiet live =
    rw ready (elim (Bool-cases (is_coming d.state)) [ inl e ↦ rw e live | inr e ↦ rw e quiet ])

module _ (s : Settings) (now : ℕ) (q : Project) (d : Deployment) (k : Seen) where
  abbrev drifted : Swept → Swept
  drifted w = if is_drifted q d k || not k.complete then commit_manifest q d w else w

  drifted-failures :
      (b : Bool) (w : Swept)
      → failures (if b then commit_manifest q d w else w).tables ≡ failures w.tables
  unfolding commit_manifest
  drifted-failures true w = refl
  drifted-failures false w = refl

  -- A sweep's step for a deployment of which a pod is ready marks no deployment as failed, whatever it
  -- does with its manifests, and whether or not it switches the release.
  pub step-failures :
      (view : RowId → Option Seen) (w : Swept)
      → view d.id ≡ some k
      → (k.ready == 0) ≡ false
      → failures (step s now q view d w).tables ≤ failures w.tables
  unfolding step act
  step-failures view w seen ready =
      let w' = drifted w in
      let same = drifted-failures (is_drifted q d k || not k.complete) w in
      let acted : failures (look s now q d (some k) w).tables ≤ failures w.tables =
        ready_verdict (λ v. failures (act s now q.id d v w').tables ≤ failures w.tables) now
          (crashes_of d.id w'.crashes) d k ready (omega (arith, same))
          (omega (arith, same, go_live-failures s now q.id d w'.tables)) in
      rw seen
        (elim (Bool-cases (is_wanted d.state)) [ inl e ↦ rw e acted | inr e ↦ rw e (omega arith) ])
