-- ===== src/Examples/Leaders.antt =====
-- Two replicas of the controller: the first leads, stops renewing, and the second takes over.
use ship_zen_gcp.Prelude.{ℕ, ◌+◌, ◌≤◌, ◌≡◌, refl, none, some, arith}
use ship_zen_gcp.Database.{same_id}
use ship_zen_gcp.Controller.Leader.{
  done, Replicas, attempt, try_acquire_or_renew, new_lease, taken_over, is_expired, tick, try,
  Steps, none_yet, then_one,
}
use ship_zen_gcp.Controller.Leader.Exclusion.{one_leader}

abbrev start : Replicas
start = record { clock = 100; lease = none; leading = λ r. none }

abbrev led_first : Replicas
led_first = attempt 15 1 done start

abbrev later : Replicas
later = record led_first { clock = led_first.clock + 20 }

abbrev led_second : Replicas
led_second = attempt 15 2 done later

run : Steps 15 start led_second
run =
    then_one (then_one (then_one (none_yet start) (try 1 done start)) (tick 20 led_first))
      (try 2 done later)

second_leads : led_second.leading 2 ≡ some 120
unfolding attempt try_acquire_or_renew new_lease taken_over is_expired same_id
second_leads = refl

in_time : led_second.clock ≤ 120 + 15
unfolding attempt
in_time = omega arith

one_leader_example : ◌≡◌ {A = ℕ} 2 2
one_leader_example =
    one_leader 15 start led_second (λ r. refl) run 2 2 120 120 second_leads second_leads in_time
      in_time
