-- ===== src/Controller/Release/Promotion.antt =====
-- How many releases a promotion keeps for rollback, and which.
use ship_zen_gcp.Prelude.{
  ℕ, ◌+◌, ◌≤◌, ◌≡◌, refl, Bool, true, false, not, List, [], ◌∷◌, count, filter, take, drop,
  count-append, take-append-drop, length-take, arith, ap,
}
use ship_zen_gcp.Database.{RowId, superseded, Deployment, Tables}
use ship_zen_gcp.Database.Statements.{
  newest_first, id_in, count-update, count-filter, count-newest_first, count-le-length,
}
use ship_zen_gcp.Controller.Release.{
  Settings, is_scaled_down, start_grace, supersede_old, promote_release,
}

count-none_left :
    (all_old ds : List Deployment)
    → ((i : RowId) → id_in ds i ≡ true → id_in all_old i ≡ true)
    → count (λ d. not (id_in all_old d.id)) ds ≡ 0
count-none_left all_old [] h = refl
count-none_left all_old (d ∷ ds) h =
    let rest = count-none_left all_old ds (λ i q. h i (ground arith)) in
    ground (arith, h d.id, rest)

-- Of a list cut by OFFSET, at most the first part is outside the second.
count-cut : (n : ℕ) (ds : List Deployment) → count (λ d. not (id_in (drop n ds) d.id)) ds ≤ n
count-cut n ds =
    let q : Deployment → Bool = λ d. not (id_in (drop n ds) d.id) in
    omega (
      arith,
      ap (count q) (take-append-drop n ds),
      count-append q (take n ds) (drop n ds),
      count-le-length q (take n ds),
      length-take n ds,
      count-none_left (drop n ds) (drop n ds) (λ i h. h),
    )

superseded-not :
    (p : RowId) (d : Deployment) → is_scaled_down p (record d { state = superseded }) ≡ false
unfolding is_scaled_down
superseded-not p d = ground arith

count-supersede_old :
    (keep : ℕ) (p : RowId) (rows : List Deployment)
    → count (is_scaled_down p) (supersede_old keep p rows) ≤ keep
unfolding supersede_old
count-supersede_old keep p rows =
    let picked = newest_first (filter (is_scaled_down p) rows) in
    let q : Deployment → Bool = λ d. not (id_in (drop keep picked) d.id) in
    omega (
      arith,
      count-update (is_scaled_down p) (λ d. id_in (drop keep picked) d.id)
          (λ d. record d { state = superseded }) (superseded-not p) rows,
      count-filter q (is_scaled_down p) rows,
      count-newest_first q (filter (is_scaled_down p) rows),
      count-cut keep picked,
    )

-- After a promotion at most KEEP_RELEASES releases of the project are left as scaled-down rollback
-- targets, whatever was there before.
pub count-promote_release :
    (s : Settings) (now : ℕ) (p i : RowId) (t : Tables)
    → count (is_scaled_down p) (promote_release s now p i t).deployments ≤ s.keep_releases
unfolding promote_release
count-promote_release s now p i t =
    count-supersede_old s.keep_releases p (start_grace (now + s.grace) p i t.deployments)
