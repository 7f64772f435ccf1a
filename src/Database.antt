-- ===== src/Database.antt =====
-- The tables that the API, the worker and the controller share (api/migrations), as far as the
-- modelled statements read and write them, and the forms of SQL statement that the code uses.
pub mod Statements
pub mod Index
use ship_zen_gcp.Prelude.{
  ℕ, Bool, true, false, ◌&&◌, List, [], ◌∷◌, Text, Option, none, some, ltb, ◌==◌,
}
use ship_zen_gcp.Shared.Sizes

-- Primary keys are UUIDs, which the program makes and compares: numbers of 128 bits.
abbrev pub RowId : Type 0
RowId = ℕ

-- `Retry` and `DLQ` of the worker's `DeploymentState` are never written.
pub data State : Type 0 where
  queued building deploying verifying running failed superseded : State

pub data Kind : Type 0 where
  production preview : Kind

-- Why a deployment is `Failed`: each text that the code stores in `last_error`.
pub data Failure : Type 0 where
  cancelled stuck crash_loop not_ready : Failure
  other_repository invalid_config clone_failed build_failed : Failure
  exception : Failure

pub record Deployment : Type 0 where
  pub id : RowId
  pub project : RowId
  pub state : State
  pub kind : Kind
  pub pr_number : Option ℕ
  pub repo_url : Text
  pub branch : Text
  pub image_uri : Text
  pub image_digest : Option Text
  pub build_context : Option Text
  pub replicas : Option ℕ
  pub port : Option ℕ
  pub health_check_path : Option Text
  pub created_at : ℕ
  pub updated_at : ℕ
  pub scale_down_after : Option ℕ
  pub last_error : Option Failure

-- `Terminated` is written by the controller, and is no member of its `ProjectStatus`.
pub data Status : Type 0 where
  provisioning ready terminating failed terminated : Status

pub record Project : Type 0 where
  pub id : RowId
  pub namespace : Text
  pub status : Status
  pub name : Text
  pub subdomain : Option Text
  pub live_deployment_id : Option RowId
  pub github_repo_id : Option ℕ
  pub github_repo_full_name : Option Text
  pub repo_url : Option Text
  pub branch : Option Text
  pub webhook_secret : Option Text
  pub owner_id : RowId
  pub deleted : Bool
  pub instance_size : Sizes.Name
  pub min_instances : Option ℕ
  pub max_instances : Option ℕ

-- `state IN ('Queued', 'Building', 'Deploying', 'Verifying')`
unfoldable pub in_flight : State → Bool
in_flight queued = true
in_flight building = true
in_flight deploying = true
in_flight verifying = true
in_flight s = false

unfoldable pub is_running : State → Bool
is_running running = true
is_running s = false

unfoldable pub is_production : Kind → Bool
is_production production = true
is_production preview = false

-- `x IS NOT DISTINCT FROM y` on nullable numbers.
unfoldable pub same_id : Option RowId → Option RowId → Bool
same_id none none = true
same_id (some a) (some b) = a == b
same_id a b = false

-- `replicas > 0` and `replicas = 0`, which NULL does not pass.
unfoldable pub is_up : Option ℕ → Bool
is_up none = false
is_up (some n) = ltb 0 n

unfoldable pub is_zero : Option ℕ → Bool
is_zero none = false
is_zero (some n) = n == 0

pub record Tables : Type 0 where
  pub projects : List Project
  pub deployments : List Deployment
