-- ===== src/Worker/Process/Settling.antt =====
-- When a message leaves the queue: `process_message` settles it exactly when it returns.
use ship_zen_gcp.Prelude.{ℕ, ◌≡◌, refl, ap, List, ◌∷◌, Option, none, some}
use ship_zen_gcp.Database.{RowId, Deployment}
use ship_zen_gcp.Worker.World.{Exn, Message, World, M, ◌>>=◌, modify}
use ship_zen_gcp.Worker.World.Rules.{
  Triple, Keeps, Holds, Keeps-modify, Triple-bind, Triple-catch, Triple-finally, Triple-if,
  keeps_rules,
}
use ship_zen_gcp.Worker.Store.{ack_message, add_to_dlq}
use ship_zen_gcp.Worker.Stages.{Env}
use ship_zen_gcp.Worker.Keeping.{
  OffBooks, Unrelated, use_queue-Keeps, update_state-Keeps, get_deployment-Keeps, monitor_job-Keeps,
  create_build_job-Keeps, bound_repo_mismatch-Keeps, config_stage-Keeps, context_stage-Keeps,
  folder_stage-Keeps, second_build-Keeps,
}
use ship_zen_gcp.Worker.Keeping.Cluster.{
  OffCluster, github_stage-Keeps, clone_stage-Keeps, registry_stage-Keeps,
}
use ship_zen_gcp.Worker.Monitor.{Run}
use ship_zen_gcp.Worker.Process.{
  build_stages, build_failed_handler, build_message, clean_up, skip_build, dispatch, process_valid,
  process_message,
}

abbrev pub Acked : List ℕ → World → Type 0
Acked a w = w.acked ≡ a

module _ (a : List ℕ) where
  Acked-OffBooks : OffBooks (Acked a)
  Acked-OffBooks = record {
    faults = λ b fs w e h. h;
    notes = λ ns w h. h;
    builds = λ bs w h. h;
    jobs = λ js w h. h;
  }

  Acked-Unrelated : Unrelated (Acked a)
  Acked-Unrelated = record { books = Acked-OffBooks; rows = λ ds w h. h }

  Acked-OffCluster : OffCluster (Acked a)
  Acked-OffCluster = record { secrets = λ ss w h. h; held = λ ss w h. h; workspaces = λ is w h. h }

  module _ (m : Message) where
    -- The message is acknowledged when the action returns, and only then.
    abbrev pub Settles : M (Unit {0}) → Type 0
    Settles c = Triple (Acked a) c (λ _ w. Acked (m.id ∷ a) w) (Acked a)

    after :
        {A : Type 0} (c : M A) (f : A → M (Unit {0}))
        → Keeps (Acked a) c
        → ((x : A) → Settles (f x))
        → Settles (c >>= f)
    after c f k s = Triple-bind (λ _. Acked a) c f k s

    ack-Settles : Settles (ack_message m.id)
    unfolding ack_message modify
    ack-Settles =
        after _ _ (use_queue-Keeps Acked-OffBooks) λ _. record { run = λ w h. ap (λ l. m.id ∷ l) h }

    dlq-Settles : Settles (add_to_dlq m)
    unfolding add_to_dlq modify
    dlq-Settles =
        after _ _ (use_queue-Keeps Acked-OffBooks) λ _. record { run = λ w h. ap (λ l. m.id ∷ l) h }

    build_stages-Settles :
        (env : Env) (run rerun : Run) (row : Option Deployment) (i : RowId)
        → Settles (build_stages env run rerun row m i)
    unfolding build_stages
    build_stages-Settles env run rerun row i =
        search
          (
            after,
            ack-Settles,
            keeps_rules,
            github_stage-Keeps,
            clone_stage-Keeps,
            registry_stage-Keeps,
            monitor_job-Keeps Acked-Unrelated,
            create_build_job-Keeps Acked-OffBooks,
            bound_repo_mismatch-Keeps Acked-OffBooks,
            config_stage-Keeps Acked-Unrelated,
            context_stage-Keeps Acked-OffBooks,
            folder_stage-Keeps Acked-OffBooks,
            second_build-Keeps Acked-Unrelated,
          )
          depth 16

    handler-Settles : (i : RowId) (e : Exn) → Settles (build_failed_handler m i e)
    unfolding build_failed_handler
    handler-Settles i e = search (after, dlq-Settles, update_state-Keeps Acked-Unrelated)

    build_message-Settles :
        (env : Env) (run rerun : Run) (row : Option Deployment) (i : RowId)
        → Settles (build_message env run rerun row m i)
    unfolding build_message clean_up
    build_message-Settles env run rerun row i =
        Triple-finally _ _ _ (clean_up env.deletes i)
          (Triple-catch (Acked a) _ _ (build_stages-Settles env run rerun row i)
            (handler-Settles i))
          (λ x w h. h) (λ w h. h)

    skip_build-Settles : (i : RowId) → Settles (skip_build m i)
    unfolding skip_build
    skip_build-Settles i = search (after, ack-Settles, update_state-Keeps Acked-Unrelated)

    dispatch-Settles :
        (env : Env) (run rerun : Run) (i : RowId) (row : Option Deployment)
        → Settles (dispatch env run rerun m i row)
    unfolding dispatch
    dispatch-Settles env run rerun i row =
        search (Triple-if, ack-Settles, skip_build-Settles, build_message-Settles)

    process_valid-Settles :
        (env : Env) (run rerun : Run) (o : Option RowId) → Settles (process_valid env run rerun m o)
    unfolding process_valid
    process_valid-Settles env run rerun none = dlq-Settles
    process_valid-Settles env run rerun (some i) =
        search
          (Triple-if, dlq-Settles, after, get_deployment-Keeps Acked-OffBooks, dispatch-Settles)

process_message-Settles :
    (env : Env) (run rerun : Run) (m : Message) (a : List ℕ)
    → Settles a m (process_message env run rerun m)
unfolding process_message
process_message-Settles env run rerun m a =
    after a m _ _ (Keeps-modify _ (λ w h. h))
      (λ _. process_valid-Settles a m env run rerun m.deployment_id)

-- From any world, a message is acknowledged exactly once if `process_message` returns, on every path
-- (malformed, duplicate, rollback, built or failed), and not at all if it raises: then it stays
-- pending, and the queue delivers it again. A call of Redis that raises has done nothing.
pub acked-process_message :
    (env : Env) (run rerun : Run) (m : Message) (w : World)
    → Holds
        (λ _ after. after.acked ≡ m.id ∷ w.acked)
        (λ after. after.acked ≡ w.acked)
        (process_message env run rerun m w).0
        (process_message env run rerun m w).1
acked-process_message env run rerun m w =
    (process_message-Settles env run rerun m w.acked).run w refl
