-- ===== src/Api/Store.antt =====
-- What the API's handlers act on: the tables, and the outbox and the stream behind them. A handler is a
-- function to its reply and the tables it leaves.
use ship_zen_gcp.Prelude.{ℕ, Bool, true, false, List, [], ◌∷◌, ◌++◌, Text, Option, none, some}
use ship_zen_gcp.Database.{RowId, Deployment, Project}

-- `project_members.role`
pub data Role : Type 0 where
  owner editor viewer : Role

pub record Member : Type 0 where
  pub project : RowId
  pub user : RowId
  pub role : Role

pub record User : Type 0 where
  pub id : RowId
  pub email : Option Text
  pub suspended : Bool

-- The deploy message, as the API writes it (without its timestamps and trace id).
pub record Payload : Type 0 where
  pub deployment_id : RowId
  pub project_id : RowId
  pub repo_url : Text
  pub branch : Text
  pub image_name : Text
  pub build_context : Text
  pub is_rollback : Bool

-- `outbox` is in the order of its serial ids.
pub record Store : Type 0 where
  pub projects : List Project
  pub deployments : List Deployment
  pub members : List Member
  pub users : List User
  pub freeze : Bool
  pub outbox : List Payload
  pub stream : List Payload

-- Who asks, and what the request meets: the clock and the first instant of its month, a new UUID, and
-- whether the first query and the transaction succeed.
pub record Request : Type 0 where
  pub user : RowId
  pub is_admin : Bool
  pub now : ℕ
  pub month_start : ℕ
  pub fresh : RowId
  pub queried : Bool
  pub committed : Bool

-- `HTTPException(status_code=...)`, or a result.
pub data Reply {ℓ} (A : Type ℓ) : Type ℓ where
  ok : A → Reply A
  http : ℕ → Reply A

infixl 5 ◌>>=◌ ◌>>◌
unfoldable pub ◌>>=◌ {ℓ κ} : {A : Type ℓ} {B : Type κ} → Reply A → (A → Reply B) → Reply B
ok a >>= f = f a
http n >>= f = http n

unfoldable pub ◌>>◌ {κ} : {B : Type κ} → Reply (Unit {0}) → Reply B → Reply B
ok a >> n = n
http k >> n = http k

-- `if not test: raise HTTPException(status)`
unfoldable pub guard : Bool → ℕ → Reply (Unit {0})
guard true status = ok tt
guard false status = http status

-- A value that must be there.
abbrev pub required {ℓ} : {A : Type ℓ} → Option A → ℕ → Reply A
required none status = http status
required (some a) status = ok a

-- `queue_deployment`, in the caller's transaction.
unfoldable pub queue_deployment : Payload → Store → Store
queue_deployment p s = record s { outbox = s.outbox ++ p ∷ [] }
