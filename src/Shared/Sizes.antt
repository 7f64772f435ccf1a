-- ===== src/Shared/Sizes.antt =====
-- shipzen_common/sizes.py: instance sizes, and the limits on scaling.
pub mod Quota
use ship_zen_gcp.Prelude.{ℕ, Bool, true, false, Option, none, some, ltb, if◌then◌else◌}

-- The keys of `SIZES`.
pub data Size : Type 0 where
  small medium large : Size

-- CPU in millicores and memory in MiB: `500m` is 500, `1` is 1000, `1Gi` is 1024. The price fields
-- `vcpu` and `gib` are the requests once more, in whole units.
pub record Spec : Type 0 where
  pub cpu : ℕ
  pub memory : ℕ
  pub cpu_limit : ℕ
  pub memory_limit : ℕ
  pub max_instances : ℕ

unfoldable pub sizes : Size → Spec
sizes small = record {
  cpu = 100;
  memory = 128;
  cpu_limit = 500;
  memory_limit = 512;
  max_instances = 5;
}
sizes medium = record {
  cpu = 250;
  memory = 512;
  cpu_limit = 1000;
  memory_limit = 1024;
  max_instances = 3;
}
sizes large = record {
  cpu = 500;
  memory = 1024;
  cpu_limit = 1000;
  memory_limit = 2048;
  max_instances = 2;
}

-- A size as the caller has it: missing or empty, a name that is no key, or a key.
pub data Name : Type 0 where
  missing unknown : Name
  known : Size → Name

unfoldable pub size_spec : Name → Spec
unfolding sizes
size_spec (known s) = sizes s
size_spec n = sizes small

pub data ScalingProblem : Type 0 where
  bad_size below_one crossed over_cap : ScalingProblem

-- Why the settings are refused. The instance counts come from a request or a row and may be negative
-- there; every count below 1 is refused alike, so 0 stands for all of them.
unfoldable pub scaling_problem : Name → ℕ → ℕ → Option ScalingProblem
unfolding sizes
scaling_problem (known s) mn mx =
    if ltb mn 1
    then some below_one
    else if ltb mx mn
    then some crossed
    else if ltb (sizes s).max_instances mx
    then some over_cap
    else none
scaling_problem n mn mx = some bad_size
