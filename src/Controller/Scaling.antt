-- ===== src/Controller/Scaling.antt =====
-- controller/main.py: `release_scaling`, size and instance count of one release.
pub mod Quota
use ship_zen_gcp.Prelude.{
  ℕ, Bool, true, false, not, ◌&&◌, ◌||◌, Option, none, some, ltb, leb, ◌==◌, if◌then◌else◌, is_some,
}
use ship_zen_gcp.Database.{RowId, Deployment, Project, is_running, is_production, is_up, same_id}
use ship_zen_gcp.Shared.Sizes
use ship_zen_gcp.Shared.Sizes.{Size, small, known, sizes, size_spec, Spec, scaling_problem}

-- The key is the annotation by which drift is noticed.
pub record Key : Type 0 where
  pub size : Sizes.Name
  pub min : ℕ
  pub max : ℕ

pub record Scaling : Type 0 where
  pub replicas : ℕ
  pub min_instances : ℕ
  pub max_instances : ℕ
  pub autoscale : Bool
  pub spec : Spec
  pub key : Key

-- `n or 1`
abbrev pub or_one : Option ℕ → ℕ
or_one none = 1
or_one (some n) = if n == 0 then 1 else n

-- The settings of the project, or the default ones if they are not allowed.
unfoldable pub allowed_key : Project → Key
unfolding scaling_problem
allowed_key q =
    if is_some (scaling_problem q.instance_size (or_one q.min_instances) (or_one q.max_instances))
    then record { size = known small; min = 1; max = 1 }
    else record {
      size = q.instance_size;
      min = or_one q.min_instances;
      max = or_one q.max_instances;
    }

abbrev is_live_id : Option RowId → RowId → Bool
is_live_id none i = true
is_live_id (some l) i = l == i

unfoldable pub is_live : Project → Deployment → Bool
unfolding is_running is_up is_production
is_live q d =
    is_running d.state
    && is_up d.replicas
    && is_production d.kind
    && is_live_id q.live_deployment_id d.id

-- `db_replicas if db_replicas is not None else 1`
abbrev pub own_replicas : Option ℕ → ℕ
own_replicas none = 1
own_replicas (some n) = n

abbrev scaled : Bool → Key → Scaling
scaled live k = record {
  replicas = k.min;
  min_instances = k.min;
  max_instances = k.max;
  autoscale = live && ltb k.min k.max;
  spec = size_spec k.size;
  key = k;
}

unfoldable pub release_scaling : Project → Deployment → Scaling
unfolding allowed_key is_live size_spec
release_scaling q d =
    let k = allowed_key q in
    let own = own_replicas d.replicas in
    if is_live q d
    then scaled true k
    else scaled false (record { size = k.size; min = own; max = own })

-- The sizes, told apart as their names are.
abbrev size_code : Sizes.Name → ℕ
size_code Sizes.missing = 0
size_code Sizes.unknown = 1
size_code (known Sizes.small) = 2
size_code (known Sizes.medium) = 3
size_code (known Sizes.large) = 4

-- The annotation that a Deployment has, if any, is this one.
abbrev pub same_key_as : Option Key → Key → Bool
same_key_as none r = false
same_key_as (some k) r = size_code k.size == size_code r.size && k.min == r.min && k.max == r.max
