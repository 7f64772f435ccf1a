-- ===== src/Worker/Process/Returning.antt =====
-- `process_message` raises only when the database or the queue fails: a handler catches everything else, and its
-- own write cannot break an index.
use ship_zen_gcp.Prelude.{
  ℕ, ◌≡◌, refl, Bool, false, ◌&&◌, List, [], ◌∷◌, Option, none, some, any, ◌==◌, arith,
}
use ship_zen_gcp.Database.{RowId, failed, Failure, Deployment, in_flight}
use ship_zen_gcp.Database.Index.{clashes}
use ship_zen_gcp.Worker.World.{
  Exn, database, other, Out, ok, raised, World, M, modify, gets, Message, ◌>>=◌,
}
use ship_zen_gcp.Worker.World.Rules.{
  Holds, Triple, Keeps, Keeps-modify, Keeps-bind, Triple-bind, Triple-catch, Triple-finally,
  Triple-if, Triple-else, keeps_rules,
}
use ship_zen_gcp.Worker.Store.{
  after_fault, use_db, use_queue, set_state, breaks_index, update_state, ack_message, add_to_dlq,
  get_deployment,
}
use ship_zen_gcp.Worker.Keeping.{
  Unrelated, use_queue-Keeps, create_build_job-Keeps, bound_repo_mismatch-Keeps, config_stage-Keeps,
  context_stage-Keeps, folder_stage-Keeps, monitor_job-Keeps, second_build-Keeps,
}
use ship_zen_gcp.Worker.Keeping.Cluster.{
  OffCluster, github_stage-Keeps, clone_stage-Keeps, registry_stage-Keeps,
}
use ship_zen_gcp.Worker.Monitor.{Run}
use ship_zen_gcp.Worker.Stages.{Env}
use ship_zen_gcp.Worker.Process.Settling.{acked-process_message}
use ship_zen_gcp.Worker.Process.{
  build_stages, build_failed_handler, build_message, clean_up, skip_build, dispatch, already_built,
  lacks_fields, process_valid, process_message,
}

-- No use of the database, or of the queue to settle a message, fails from now on.
abbrev pub Calm : World → Type 0
Calm w = w.faults ≡ []

-- The action returns, if no such use fails.
abbrev pub Returns : {A : Type 0} → M A → Type 0
Returns m = Triple Calm m (λ _. Calm) (λ _. ⊥)

Calm-Unrelated : Unrelated Calm
Calm-Unrelated = record {
  books = record {
    faults = λ b fs w e h. ground arith;
    notes = λ ns w h. h;
    builds = λ bs w h. h;
    jobs = λ js w h. h;
  };
  rows = λ ds w h. h;
}

Calm-OffCluster : OffCluster Calm
Calm-OffCluster = record { secrets = λ ss w h. h; held = λ ss w h. h; workspaces = λ ks w h. h }

after_fault-Calm :
    (x : Exn) (fs : List Bool) (w : World)
    → fs ≡ []
    → Calm w
    → Holds {A = Unit {0}} (λ _. Calm) (λ _. ⊥) (after_fault x fs w).0 (after_fault x fs w).1
after_fault-Calm x [] w e h = h
after_fault-Calm x (b ∷ fs) w e h = ground arith

use_db-Returns : Returns use_db
unfolding use_db
use_db-Returns = record { run = λ w h. after_fault-Calm database w.faults w h h }

use_queue-Returns : Returns use_queue
unfolding use_queue
use_queue-Returns = record { run = λ w h. after_fault-Calm other w.faults w h h }

any_failed :
    (i : RowId) (rows ds : List Deployment)
    → any (λ d. d.id == i && clashes (record d { state = failed }) rows) ds ≡ false
unfolding clashes in_flight
any_failed i rows [] = refl
any_failed i rows (d ∷ ds) = ground (arith, any_failed i rows ds)

-- A row that fails leaves the indexes.
breaks_index-failed : (i : RowId) (rows : List Deployment) → breaks_index i failed rows ≡ false
unfolding breaks_index
breaks_index-failed i rows = any_failed i rows rows

set_failed-Returns : (i : RowId) (e : Option Failure) → Returns (set_state i failed e)
set_failed-Returns i e = record { run = λ w h. rw (breaks_index-failed i w.deployments) h }

next :
    {A B : Type 0} (m : M A) (n : A → M B)
    → Returns m
    → ((a : A) → Returns (n a))
    → Returns (m >>= n)
next m n r k = Triple-bind (λ _. Calm) m n r k

handler-Returns : (m : Message) (i : RowId) (e : Exn) → Returns (build_failed_handler m i e)
unfolding build_failed_handler update_state add_to_dlq modify
handler-Returns m i e =
    next _ _ (next _ _ use_db-Returns λ _. next _ _ (set_failed-Returns i _) λ _. use_db-Returns)
      λ _. next _ _ use_queue-Returns λ _. record { run = λ w h. h }

ack-Returns : (k : ℕ) → Returns (ack_message k)
unfolding ack_message modify
ack-Returns k = next _ _ use_queue-Returns λ _. record { run = λ w h. h }

dlq-Returns : (m : Message) → Returns (add_to_dlq m)
unfolding add_to_dlq modify
dlq-Returns m = next _ _ use_queue-Returns λ _. record { run = λ w h. h }

ack-Keeps : (k : ℕ) → Keeps Calm (ack_message k)
unfolding ack_message
ack-Keeps k = Keeps-bind _ _ (use_queue-Keeps Calm-Unrelated.books) λ _. Keeps-modify _ (λ w h. h)

build_stages-Keeps :
    (env : Env) (run rerun : Run) (row : Option Deployment) (m : Message) (i : RowId)
    → Keeps Calm (build_stages env run rerun row m i)
unfolding build_stages
build_stages-Keeps env run rerun row m i =
    search
      (
        ack-Keeps,
        keeps_rules,
        github_stage-Keeps Calm-OffCluster,
        clone_stage-Keeps,
        Calm-OffCluster,
        registry_stage-Keeps Calm-OffCluster,
        monitor_job-Keeps Calm-Unrelated,
        create_build_job-Keeps,
        bound_repo_mismatch-Keeps,
        config_stage-Keeps Calm-Unrelated,
        context_stage-Keeps,
        folder_stage-Keeps,
        Calm-Unrelated.books,
        second_build-Keeps Calm-Unrelated,
      )
      depth 16

build_message-Returns :
    (env : Env) (run rerun : Run) (row : Option Deployment) (m : Message) (i : RowId)
    → Returns (build_message env run rerun row m i)
unfolding build_message clean_up
build_message-Returns env run rerun row m i =
    Triple-finally (λ _. Calm) (λ _. ⊥) _ (clean_up env.deletes i)
      (Triple-catch Calm _ _ (build_stages-Keeps env run rerun row m i) (handler-Returns m i))
      (λ a w h. h) (λ w h. h)

get_deployment-Returns : (i : RowId) → Returns (get_deployment i)
unfolding get_deployment gets
get_deployment-Returns i = next _ _ use_db-Returns λ _. record { run = λ w h. h }

module _ (env : Env) (run rerun : Run) (m : Message) (is_build : m.is_rollback ≡ false) where
  dispatch-Returns :
      (i : RowId) (row : Option Deployment) → Returns (dispatch env run rerun m i row)
  unfolding dispatch
  dispatch-Returns i row =
      Triple-if (already_built row) (ack_message m.id) _ (λ _. ack-Returns m.id)
        (λ _.
          Triple-else m.is_rollback (skip_build m i) _ is_build
            (build_message-Returns env run rerun row m i))

  process_valid-Returns : (o : Option RowId) → Returns (process_valid env run rerun m o)
  unfolding process_valid
  process_valid-Returns none = dlq-Returns m
  process_valid-Returns (some i) =
      Triple-if (lacks_fields m) (add_to_dlq m) _ (λ _. dlq-Returns m)
        (λ _. next _ _ (get_deployment-Returns i) (dispatch-Returns i))

  process_message-Returns : Returns (process_message env run rerun m)
  unfolding process_message modify
  process_message-Returns =
      next _ _ (record { run = λ w h. h }) λ _. process_valid-Returns m.deployment_id

-- If no use of the database fails, and no call of Redis to settle a message, `process_message` returns for every message that is no rollback:
-- whatever git, GitHub, the cluster, the registry or the repository answer, malformed messages
-- included, nothing is raised to the caller, and the message is settled once.
pub process_message-returns :
    (env : Env) (run rerun : Run) (m : Message) (w : World)
    → m.is_rollback ≡ false
    → w.faults ≡ []
    → Holds
        (λ _ after. after.acked ≡ m.id ∷ w.acked)
        (λ _. ⊥)
        (process_message env run rerun m w).0
        (process_message env run rerun m w).1
process_message-returns env run rerun m w is_build calm =
    settled (process_message env run rerun m w).0 (process_message env run rerun m w).1
      ((process_message-Returns env run rerun m is_build).run w calm)
      (acked-process_message env run rerun m w)
  where
    settled :
        (r : Out Unit) (after : World)
        → Holds (λ _. Calm) (λ _. ⊥) r after
        → Holds (λ _ after. after.acked ≡ m.id ∷ w.acked) (λ after. after.acked ≡ w.acked) r after
        → Holds (λ _ after. after.acked ≡ m.id ∷ w.acked) (λ _. ⊥) r after
    settled (ok u) after a b = b
    settled (raised e) after a b = a
