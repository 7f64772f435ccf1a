-- ===== src/Examples/Releases.antt =====
-- A switch between two releases at concrete rows.
use ship_zen_gcp.Prelude.{◌≤◌, ◌≡◌, refl, true, some, none, get_elem?, count, arith}
use ship_zen_gcp.Database.{is_up}
use ship_zen_gcp.Database.Statements.Keys.{Distinct}
use ship_zen_gcp.Controller.Release.{is_scaled_down, is_left, promote_release}
use ship_zen_gcp.Controller.Release.Promotion.{count-promote_release}
use ship_zen_gcp.Controller.Release.Switch.{graced, after, switch_no_gap, switch_ends, live_stays}
use ship_zen_gcp.Controller.Release.Promoted.{promoted, promote_release-row}
use ship_zen_gcp.Examples.Rows.{old_live, new_live, tables, settings}

count-promote_release_example :
    count (is_scaled_down 1) (promote_release settings 20 1 11 tables).deployments ≤ 5
count-promote_release_example = count-promote_release settings 20 1 11 tables

distinct : Distinct tables.deployments
distinct = (refl, (refl, (refl, (refl, tt))))

old_up : is_up old_live.replicas ≡ true
unfolding is_up
old_up = refl

new_up : is_up new_live.replicas ≡ true
unfolding is_up
new_up = refl

old_left : is_left 1 11 old_live ≡ true
unfolding is_left
old_left = refl

promote_release-row_example :
    get_elem? (promote_release settings 20 1 11 tables).deployments 0
    ≡ some (promoted 35 1 11 old_live)
promote_release-row_example =
    promote_release-row settings 20 1 11 tables 0 old_live distinct refl refl

switch_no_gap_example :
    get_elem? (after settings 20 1 11 tables 34).deployments 0
    ≡ some (graced settings 20 1 11 tables old_live)
switch_no_gap_example =
    switch_no_gap settings 20 1 11 tables distinct 0 old_live 34 refl old_up refl (omega arith)

switch_ends_example :
    get_elem? (after settings 20 1 11 tables 35).deployments 0
    ≡ some (record old_live { replicas = some 0; scale_down_after = none })
switch_ends_example =
    switch_ends settings 20 1 11 tables distinct 0 old_live 35 refl old_left refl (omega arith)

live_stays_example : get_elem? (after settings 20 1 11 tables 99).deployments 1 ≡ some new_live
live_stays_example = live_stays settings 20 1 11 tables distinct 1 new_live 99 refl refl new_up refl
