-- ===== src/Worker/World.antt =====
-- What the worker's code acts on, and the shape of that code: functions that change the world and may
-- raise. What was written before an exception stays written.
pub mod Rules
use ship_zen_gcp.Prelude.{
  ℕ, ◌/◌, ◌^◌, ◌+◌, Bool, true, false, not, List, [], ◌∷◌, ◌++◌, Text, Option, none, some, filter,
  ◌==◌, if◌then◌else◌,
}
use ship_zen_gcp.Database.{
  RowId, Deployment, Project, Failure, other_repository, invalid_config, clone_failed, exception,
}

-- The exceptions that the handlers tell apart.
pub data Exn : Type 0 where
  repo_config wrong_repository clone database other : Exn

-- `message` in the handler of `process_message`.
abbrev pub failure_of : Exn → Failure
failure_of repo_config = invalid_config
failure_of wrong_repository = other_repository
failure_of clone = clone_failed
failure_of database = exception
failure_of other = exception

-- The Secrets and Jobs of a deployment are named after the first 8 digits of its id.
pub data Secret : Type 0 where
  git_token registry : ℕ → Secret

pub data Job : Type 0 where
  build fix : ℕ → Job

abbrev pub short : RowId → ℕ
short i = i / 2 ^ 96

pub data BuildStatus : Type 0 where
  success failure : BuildStatus

pub data Note : Type 0 where
  diagnosis auto_fix : ℕ → Note

-- A message of the stream, as `process_message` reads its fields.
pub record Message : Type 0 where
  pub id : ℕ
  pub deployment_id : Option RowId
  pub project_id : Option RowId
  pub repo_url : Text
  pub branch : Text
  pub image_name : Text
  pub is_rollback : Bool
  pub build_context : Option Text

-- `faults` says of each coming use of the database, and of the queue to settle a message, whether it
-- fails (none does after its end).
-- `held` stands for the local variables `github_secret_name` and `registry_secret_name`.
pub record World : Type 0 where
  pub deployments : List Deployment
  pub projects : List Project
  pub acked : List ℕ
  pub dlq : List Message
  pub secrets : List Secret
  pub held : List Secret
  pub jobs : List Job
  pub builds : List (RowId × BuildStatus)
  pub notes : List (RowId × Note)
  pub workspaces : List RowId
  pub faults : List Bool
  pub now : ℕ

pub data Out {ℓ} (A : Type ℓ) : Type ℓ where
  ok : A → Out A
  raised : Exn → Out A

abbrev pub M : Type 0 → Type 0
M A = World → Out A × World

unfoldable pub pure : {A : Type 0} → A → M A
pure a w = (ok a, w)

unfoldable pub raise : {A : Type 0} → Exn → M A
raise e w = (raised e, w)

unfoldable pub modify : (World → World) → M (Unit {0})
modify f w = (ok tt, f w)

unfoldable pub gets : {A : Type 0} → (World → A) → M A
gets f w = (ok (f w), w)

abbrev pub continue : {A B : Type 0} → Out A → (A → M B) → M B
continue (ok a) f w = f a w
continue (raised e) f w = (raised e, w)

infixl 5 ◌>>=◌ ◌>>◌
unfoldable pub ◌>>=◌ : {A B : Type 0} → M A → (A → M B) → M B
◌>>=◌ m f w = let (r, w') = m w in continue r f w'

abbrev pub ◌>>◌ : {B : Type 0} → M (Unit {0}) → M B → M B
m >> n = m >>= λ _. n

abbrev pub handled : {A : Type 0} → Out A → (Exn → M A) → M A
handled (ok a) h w = (ok a, w)
handled (raised e) h w = h e w

-- `try: m except Exception as e: h`
unfoldable pub catch : {A : Type 0} → M A → (Exn → M A) → M A
catch m h w = let (r, w') = m w in handled r h w'

-- `try: m finally: f`, for an `f` that raises nothing
unfoldable pub finally : {A : Type 0} → M A → (World → World) → M A
finally m f w = let (r, w') = m w in (r, f w')

-- `if b: m`
abbrev pub when : Bool → M (Unit {0}) → M (Unit {0})
when true m = m
when false m = pure tt

-- `if not b: raise e`
abbrev pub require : Bool → Exn → M (Unit {0})
require true e = pure tt
require false e = raise e

-- `try: m except Exception: log it`
unfoldable pub swallow : M (Unit {0}) → M (Unit {0})
swallow m = catch m (λ e. pure tt)
