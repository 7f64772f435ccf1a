-- ===== src/Controller/Release/Promoted.antt =====
-- Row by row, what a promotion does, against a table that is read off the columns.
use ship_zen_gcp.Prelude.{
  ℕ, zero, suc, ◌+◌, ◌≡◌, refl, ap, ◌∙◌, Bool, true, false, not, ◌&&◌, Option, none, some,
  get_elem?, ◌==◌, if◌then◌else◌, arith,
}
use ship_zen_gcp.Database.{
  RowId, State, queued, building, deploying, verifying, running, failed, superseded, Kind,
  production, preview, Deployment, Tables, is_up, is_zero, is_production, is_running,
}
use ship_zen_gcp.Database.Statements.Keys.{Distinct}
use ship_zen_gcp.Controller.Release.{
  Settings, is_null, is_release, is_left, is_scaled_down, promote_release,
}
use ship_zen_gcp.Controller.Release.Switch.{promote_release-graced}

-- A running production release that is up, with no grace period yet.
abbrev pub is_serving : Kind → State → Option ℕ → Option ℕ → Bool
is_serving production running (some (suc n)) none = true
is_serving k s r g = false

-- A running production release without replicas: what a rollback may go back to.
abbrev pub is_asleep : Kind → State → Option ℕ → Bool
is_asleep production running (some zero) = true
is_asleep k s r = false

serving :
    (k : Kind) (s : State) (r g : Option ℕ)
    → (is_production k && is_running s && is_up r && is_null g) ≡ is_serving k s r g
unfolding is_production is_running is_up
serving preview s r g = refl
serving production queued r g = refl
serving production building r g = refl
serving production deploying r g = refl
serving production verifying r g = refl
serving production failed r g = refl
serving production superseded r g = refl
serving production running none g = refl
serving production running (some zero) g = refl
serving production running (some (suc n)) none = ground arith
serving production running (some (suc n)) (some t) = ground arith

asleep :
    (k : Kind) (s : State) (r : Option ℕ)
    → (is_production k && is_running s && is_zero r) ≡ is_asleep k s r
unfolding is_production is_running is_zero
asleep preview s r = refl
asleep production queued r = refl
asleep production building r = refl
asleep production deploying r = refl
asleep production verifying r = refl
asleep production failed r = refl
asleep production superseded r = refl
asleep production running none = refl
asleep production running (some zero) = refl
asleep production running (some (suc n)) = ground arith

-- The row after a promotion of `i` in the project `p`.
abbrev pub promoted : ℕ → RowId → RowId → Deployment → Deployment
promoted until p i d =
    if d.project == p && not (d.id == i) && is_serving d.kind d.state d.replicas d.scale_down_after
    then record d { scale_down_after = some until }
    else d

left_serving :
    (p i : RowId) (d : Deployment)
    → is_left p i d ≡ (
        d.project == p
        && not (d.id == i)
        && is_serving d.kind d.state d.replicas d.scale_down_after)
unfolding is_left is_release
left_serving p i d = ground (arith, serving d.kind d.state d.replicas d.scale_down_after)

scaled_down_asleep :
    (p : RowId) (d : Deployment)
    → is_scaled_down p d ≡ (d.project == p && is_asleep d.kind d.state d.replicas)
unfolding is_scaled_down is_release
scaled_down_asleep p d = ground (arith, asleep d.kind d.state d.replicas)

-- A promotion changes a row in one way only, unless it is a running production release of the project
-- without replicas: another running production release of the project that has replicas and no grace
-- period yet gets its grace period. Every other row is exactly as before: previews, other projects,
-- deployments that are not running, the release that goes live. The ids are distinct.
pub promote_release-row :
    (s : Settings) (now : ℕ) (p i : RowId) (t : Tables) (k : ℕ) (d : Deployment)
    → Distinct t.deployments
    → get_elem? t.deployments k ≡ some d
    → (d.project == p && is_asleep d.kind d.state d.replicas) ≡ false
    → get_elem? (promote_release s now p i t).deployments k ≡ some (promoted (now + s.grace) p i d)
promote_release-row s now p i t k d distinct at other =
    promote_release-graced s now p i t distinct k d at (scaled_down_asleep p d ∙ other)
    ∙ ap (λ b. some (if b then record d { scale_down_after = some (now + s.grace) } else d))
        (left_serving p i d)
