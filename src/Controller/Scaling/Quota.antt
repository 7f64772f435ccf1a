-- ===== src/Controller/Scaling/Quota.antt =====
-- The scaling of a release keeps to the limits, whatever stands in the tables.
use ship_zen_gcp.Prelude.{
  ℕ, ◌*◌, ◌≤◌, ◌≡◌, refl, true, false, Option, none, some, is_some, arith, Bool-cases, inl, inr,
}
use ship_zen_gcp.Database.{Project, Deployment}
use ship_zen_gcp.Shared.Sizes
use ship_zen_gcp.Shared.Sizes.{Size, small, known, sizes, size_spec, scaling_problem}
use ship_zen_gcp.Shared.Sizes.Quota.{quota_cpu, quota_memory, switch_in_quota}
use ship_zen_gcp.Controller.Scaling.{
  Key, Scaling, or_one, allowed_key, is_live, own_replicas, release_scaling,
}

-- A key with at least one instance, of which two releases at the most fit in the quota.
abbrev FitsKey : Key → Type 0
FitsKey k =
    (1 ≤ k.min)
    × (k.min ≤ k.max)
    × (2 * (k.max * (size_spec k.size).cpu_limit) ≤ quota_cpu)
    × (2 * (k.max * (size_spec k.size).memory_limit) ≤ quota_memory)

-- The release starts with its least number of instances, at least one and at most its most; two
-- releases at that most fit in the quota; and the annotation tells the same counts.
abbrev pub Fits : Scaling → Type 0
Fits r =
    (r.replicas ≡ r.min_instances)
    × (1 ≤ r.replicas)
    × (r.min_instances ≤ r.max_instances)
    × (2 * (r.max_instances * r.spec.cpu_limit) ≤ quota_cpu)
    × (2 * (r.max_instances * r.spec.memory_limit) ≤ quota_memory)
    × (r.key.min ≡ r.min_instances)
    × (r.key.max ≡ r.max_instances)

none_of : {A : Type 0} (o : Option A) → is_some o ≡ false → o ≡ none
none_of none h = refl
none_of (some a) h = ground arith

ordered : (s : Size) (mn mx : ℕ) → scaling_problem (known s) mn mx ≡ none → (1 ≤ mn) × (mn ≤ mx)
unfolding scaling_problem
ordered s mn mx h = ground arith

problem-FitsKey :
    (n : Sizes.Name) (mn mx : ℕ)
    → is_some (scaling_problem n mn mx) ≡ false
    → FitsKey (record { size = n; min = mn; max = mx })
unfolding scaling_problem size_spec
problem-FitsKey Sizes.missing mn mx h = ground arith
problem-FitsKey Sizes.unknown mn mx h = ground arith
problem-FitsKey (known s) mn mx h =
    let accepted = none_of (scaling_problem (known s) mn mx) h in
    let between = ordered s mn mx accepted in
    let room = switch_in_quota s mn mx accepted in
    (between.0, between.1, omega (arith, room.0), omega (arith, room.1))

allowed_key-FitsKey : (q : Project) → FitsKey (allowed_key q)
unfolding allowed_key
allowed_key-FitsKey q =
    elim (Bool-cases (
      is_some
        (scaling_problem q.instance_size (or_one q.min_instances) (or_one q.max_instances)))) [
          | inl e ↦
              rw e (unfold size_spec sizes in (omega arith, omega arith, omega arith, omega arith))
          | inr e ↦
              rw e (
                problem-FitsKey q.instance_size (or_one q.min_instances) (or_one q.max_instances) e)
        ]

-- Whatever size and counts stand in the project's row, the live release starts with its least number of
-- instances, which is at least one and at most its most, the annotation tells the same counts, and two
-- releases with its limits at that most, as during a switch, fit in the quota.
pub release_scaling-Fits :
    (q : Project) (d : Deployment) → is_live q d ≡ true → Fits (release_scaling q d)
unfolding release_scaling
release_scaling-Fits q d live =
    let k = allowed_key-FitsKey q in rw live (refl, k.0, k.1, k.2, k.3, refl, refl)

-- Any other release keeps exactly the replicas of its row, and is not scaled by itself: a release that
-- was scaled to 0 stays there, and a new one has one instance until it is promoted.
pub release_scaling-kept :
    (q : Project) (d : Deployment)
    → is_live q d ≡ false
    → ((release_scaling q d).replicas ≡ own_replicas d.replicas)
      × ((release_scaling q d).max_instances ≡ own_replicas d.replicas)
      × ((release_scaling q d).autoscale ≡ false)
unfolding release_scaling
release_scaling-kept q d other = rw other (refl, refl, refl)
