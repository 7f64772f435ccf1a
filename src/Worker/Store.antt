-- ===== src/Worker/Store.antt =====
-- worker/state_machine.py and worker/queue_client.py, and the other statements of the worker: each is
-- a transaction of its own.
use ship_zen_gcp.Prelude.{
  ℕ, Bool, true, false, ◌&&◌, List, [], ◌∷◌, ◌++◌, Option, any, find?, ◌==◌, if◌then◌else◌,
}
use ship_zen_gcp.Database.{RowId, State, failed, Failure, Deployment}
use ship_zen_gcp.Database.Index.{clashes}
use ship_zen_gcp.Database.Statements.{update}
use ship_zen_gcp.Worker.World.{
  Exn, database, other, Out, Message, BuildStatus, Note, M, modify, gets, ◌>>◌, swallow, when,
}

abbrev pub after_fault : Exn → List Bool → M (Unit {0})
after_fault e [] w = (Out.ok tt, w)
after_fault e (false ∷ fs) w = (Out.ok tt, record w { faults = fs })
after_fault e (true ∷ fs) w = (Out.raised e, record w { faults = fs })

-- `with get_db_connection() as conn:` up to its commit; a failure rolls back.
unfoldable pub use_db : M (Unit {0})
use_db w = after_fault database w.faults w

-- A call of Redis that settles a message; one that raises has done nothing.
unfoldable pub use_queue : M (Unit {0})
use_queue w = after_fault other w.faults w

-- An UPDATE of one row by its primary key.
unfoldable pub update_row : RowId → (Deployment → Deployment) → M (Unit {0})
unfolding use_db update
update_row i set = do
  use_db
  modify (λ w. record w { deployments = update (λ d. d.id == i) set w.deployments })

-- The row after a change of state breaks a unique index of the table.
unfoldable pub breaks_index : RowId → State → List Deployment → Bool
unfolding clashes
breaks_index i s rows = any (λ d. d.id == i && clashes (record d { state = s }) rows) rows

abbrev pub set_state : RowId → State → Option Failure → M (Unit {0})
set_state i s e w = if breaks_index i s w.deployments then (Out.raised database, w) else (
  Out.ok tt,
  record w {
    deployments =
        update (λ d. d.id == i) (λ d. record d { state = s; last_error = e; updated_at = w.now })
          w.deployments;
  },
)

abbrev pub is_failed : State → Bool
is_failed failed = true
is_failed s = false

-- `StateMachine.update_state`. Publishing to Redis raises nothing; the notification of a failure takes
-- a connection of its own.
unfoldable pub update_state : RowId → State → Option Failure → M (Unit {0})
unfolding use_db update breaks_index
update_state i s e = do use_db; set_state i s e; when (is_failed s) use_db

-- `StateMachine.get_deployment`
unfoldable pub get_deployment : RowId → M (Option Deployment)
unfolding use_db
get_deployment i = do use_db; gets (λ w. find? (λ d. d.id == i) w.deployments)

-- `QueueClient.ack_message` and `QueueClient.add_to_dlq` (one pipeline)
unfoldable pub ack_message : ℕ → M (Unit {0})
unfolding use_queue
ack_message m = do use_queue; modify (λ w. record w { acked = m ∷ w.acked })

unfoldable pub add_to_dlq : Message → M (Unit {0})
unfolding use_queue
add_to_dlq m = do
  use_queue
  modify (λ w. record w { dlq = w.dlq ++ m ∷ []; acked = m.id ∷ w.acked })

-- `add_note` and `record_build`: neither raises. Without a log bucket no build is recorded.
unfoldable pub add_note : RowId → Note → M (Unit {0})
unfolding use_db
add_note i n = swallow (do use_db; modify (λ w. record w { notes = w.notes ++ (i, n) ∷ [] }))

unfoldable pub record_build : Bool → RowId → BuildStatus → M (Unit {0})
unfolding use_db
record_build bucket i s =
    when bucket (swallow (do use_db; modify (λ w. record w { builds = w.builds ++ (i, s) ∷ [] })))
