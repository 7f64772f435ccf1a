-- ===== src/Api/Sockets.antt =====
-- api/routers/deployments.py: the WebSockets of one API process, with their tickets (`create_ws_ticket`,
-- `_ws_user`) and the cap on a user's sockets (`_ws_open_for`, `_ws_release`). A socket's code runs from
-- one await to the next; an action is such a piece, and the actions of the sockets interleave.
pub mod Capped
use ship_zen_gcp.Prelude.{
  ℕ, zero, suc, ◌+◌, ◌-◌, Bool, true, false, not, ◌&&◌, List, [], ◌∷◌, ◌++◌, Text, text_eq, Option,
  none, some, find?, filter, get_elem?, ltb, leb, ◌==◌, if◌then◌else◌,
}
use ship_zen_gcp.Database.{RowId}
use ship_zen_gcp.Api.Auth.{Caller}

-- A ticket in Redis: the user's id and role, until it expires.
pub record Ticket : Type 0 where
  pub value : Text
  pub holder : RowId
  pub is_admin : Bool
  pub until : ℕ

-- The first message of a socket, as far as it is read: what it has under "ticket" and "token".
pub data FirstMessage : Type 0 where
  unreadable : FirstMessage
  read : Option Text → Option Text → FirstMessage

abbrev has_value : Text → Ticket → Bool
has_value v t = text_eq t.value v

-- `SET ... EX 60`, of a random value.
unfoldable pub create_ws_ticket : Text → Caller → ℕ → List Ticket → List Ticket
create_ws_ticket v u now ts =
    record { value = v; holder = u.id; is_admin = u.is_admin; until = now + 60 }
    ∷ filter (λ t. not (has_value v t)) ts

-- `GETDEL`
abbrev pub redeemable : ℕ → Text → Ticket → Bool
redeemable now v t = has_value v t && ltb now t.until

abbrev pub get_del : ℕ → Text → List Ticket → Option Ticket × List Ticket
get_del now v ts = (find? (redeemable now v) ts, filter (λ t. not (has_value v t)) ts)

abbrev pub holder_of : Option Ticket → Option Caller
holder_of none = none
holder_of (some t) = some (record { id = t.holder; is_admin = t.is_admin; suspended = false })

-- `get_current_user_from_token` is an argument, `none` if it raises. An empty text counts as no value.
abbrev pub by_token : (Text → Option Caller) → Option Text → Option Caller
by_token sign_in none = none
by_token sign_in (some []) = none
by_token sign_in (some (c ∷ cs)) = sign_in (c ∷ cs)

unfoldable pub ws_user :
    (Text → Option Caller) → ℕ → FirstMessage → List Ticket → Option Caller × List Ticket
ws_user sign_in now unreadable ts = (none, ts)
ws_user sign_in now (read none token) ts = (by_token sign_in token, ts)
ws_user sign_in now (read (some []) token) ts = (by_token sign_in token, ts)
ws_user sign_in now (read (some (c ∷ cs)) token) ts =
    let found = get_del now (c ∷ cs) ts in (holder_of found.0, found.1)

-- `_ws_open`, a `defaultdict(int)`: a popped key has 0.
abbrev pub Counts : Type 0
Counts = RowId → ℕ

abbrev pub set_count : RowId → ℕ → Counts → Counts
set_count u n counts v = if v == u then n else counts v

-- Where a socket's code stands: before its message; with its user; with a slot, before it subscribes;
-- listening; ended by an exception of the subscription, which is outside the `try`; closed.
pub data Phase : Type 0 where
  unidentified : Phase
  known : Caller → Phase
  reserved : RowId → Phase
  listening : RowId → Phase
  broken : RowId → Phase
  closed : Phase

-- The pieces: the message; the slot, once the access to the project and the deployment were checked;
-- the subscription; the end of the `try`, for whatever reason, with its `finally`.
pub data Resumption : Type 0 where
  received : ℕ → FirstMessage → Resumption
  checked : Bool → Resumption
  subscribed : Bool → Resumption
  ended : Resumption

pub record Sockets : Type 0 where
  pub tickets : List Ticket
  pub counts : Counts
  pub phases : List Phase

abbrev pub identified : Option Caller → Phase
identified none = closed
identified (some u) = known u

-- The cap is `WS_MAX_PER_USER`.
unfoldable pub reserve : ℕ → Bool → RowId → Counts → Phase × Counts
reserve most allowed u counts =
    if allowed
    then (if leb most (counts u)
        then (closed, counts)
        else (reserved u, set_count u (counts u + 1) counts))
    else (closed, counts)

unfoldable pub ws_release : RowId → Counts → Counts
ws_release u counts =
    if leb (counts u - 1) 0 then set_count u 0 counts else set_count u (counts u - 1) counts

module _ (most : ℕ) (sign_in : Text → Option Caller) where
  -- One piece of a socket: where it stands then, and the tickets and counts it leaves.
  abbrev pub piece : Phase → Resumption → List Ticket → Counts → Phase × List Ticket × Counts
  piece unidentified (received now m) ts counts =
      let found = ws_user sign_in now m ts in (identified found.0, found.1, counts)
  piece (known u) (checked allowed) ts counts =
      let x = reserve most allowed u.id counts in (x.0, ts, x.1)
  piece (reserved u) (subscribed true) ts counts = (listening u, ts, counts)
  piece (reserved u) (subscribed false) ts counts = (broken u, ts, counts)
  piece (listening u) ended ts counts = (closed, ts, ws_release u counts)
  piece p a ts counts = (p, ts, counts)

abbrev pub set_phase : ℕ → Phase → List Phase → List Phase
set_phase n q [] = []
set_phase zero q (p ∷ ps) = q ∷ ps
set_phase (suc n) q (p ∷ ps) = p ∷ set_phase n q ps

-- What happens in the process: a ticket is made, a socket is accepted, or one goes on.
pub data Happening : Type 0 where
  ticket_made : Text → Caller → ℕ → Happening
  socket_accepted : Happening
  went_on : ℕ → Resumption → Happening

module _ (most : ℕ) (sign_in : Text → Option Caller) where
  abbrev pub moved : ℕ → Sockets → Phase × List Ticket × Counts → Sockets
  moved n s x = record { tickets = x.1; counts = x.2; phases = set_phase n x.0 s.phases }

  abbrev pub go_on : ℕ → Resumption → Option Phase → Sockets → Sockets
  go_on n a none s = s
  go_on n a (some p) s = moved n s (piece most sign_in p a s.tickets s.counts)

  unfoldable pub happen : Happening → Sockets → Sockets
  unfolding create_ws_ticket ws_user reserve ws_release
  happen (ticket_made v u now) s = record s { tickets = create_ws_ticket v u now s.tickets }
  happen socket_accepted s = record s { phases = s.phases ++ unidentified ∷ [] }
  happen (went_on n a) s = go_on n a (get_elem? s.phases n) s

  -- From the start of the process, the latest first.
  pub state_after : List Happening → Sockets
  state_after [] = record { tickets = []; counts = λ u. 0; phases = [] }
  state_after (h ∷ hs) = happen h (state_after hs)
