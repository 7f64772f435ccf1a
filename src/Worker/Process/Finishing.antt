-- ===== src/Worker/Process/Finishing.antt =====
-- Where the row of a deployment stands once its message has been processed.
use ship_zen_gcp.Prelude.{
  ℕ, ◌≡◌, refl, sym, subst, Bool, true, false, [], not, Text, Option, none, some, arith,
}
use ship_zen_gcp.Database.{RowId, failed, Deployment}
use ship_zen_gcp.Worker.World.{Exn, World, pure, gets, modify, ◌>>=◌, Message, failure_of}
use ship_zen_gcp.Worker.World.Rules.{
  Holds, Keeps, Keeps-pure, Keeps-require, Triple-bind, Triple-catch, Triple-finally, Triple-else,
  Triple-weaken, keeps_rules,
}
use ship_zen_gcp.Worker.Store.{ack_message, add_to_dlq, get_deployment, update_row}
use ship_zen_gcp.Worker.Keeping.{
  use_db-Keeps, use_queue-Keeps, add_note-Keeps, create_build_job-Keeps, bound_repo_mismatch-Keeps,
  of_result-Keeps, context_stage-Keeps, folder_stage-Keeps,
}
use ship_zen_gcp.Worker.Keeping.Cluster.{
  github_stage-Keeps, clone_stage-Keeps, registry_stage-Keeps,
}
use ship_zen_gcp.Worker.Monitor.{Run, Diagnosis}
use ship_zen_gcp.Worker.Stages.{
  Env, ConfigFile, absent, malformed, parsed, apply_settings, config_stage,
}
use ship_zen_gcp.Worker.Process.{
  is_done, already_built, second_build, build_stages, build_failed_handler, clean_up, build_message,
  dispatch, lacks_fields, process_valid, process_message,
}
use ship_zen_gcp.Worker.Process.Rows.{
  Row, passes, anything, Row-OffBooks, Row-OffCluster, Row-anything, update_row-Row,
  update_state-Row,
}
use ship_zen_gcp.Worker.Process.Outcomes.{is_finished, Left, Action, kept, monitor_job-Left}

-- A row that the worker has not handed on yet.
abbrev pub is_open : Deployment → Bool
is_open d = not (is_done d.state)

module _ (i : RowId) where
  set-Keeps :
      (set : Deployment → Deployment)
      → ((d : Deployment) → (set d).id ≡ d.id)
      → Keeps (Row anything i) (update_row i set)
  set-Keeps set same = update_row-Row anything anything i set same (λ d h. refl)

  apply_settings-Keeps :
      (n : Option ℕ) (h : Option Text) → Keeps (Row anything i) (apply_settings i n h)
  unfolding apply_settings
  apply_settings-Keeps none none = Keeps-pure tt
  apply_settings-Keeps (some n) none = set-Keeps _ (λ d. refl)
  apply_settings-Keeps none (some h) = set-Keeps _ (λ d. refl)
  apply_settings-Keeps (some n) (some h) = set-Keeps _ (λ d. refl)

  config_stage-Keeps : (env : Env) (f : ConfigFile) → Keeps (Row anything i) (config_stage env i f)
  unfolding config_stage
  config_stage-Keeps env absent = search keeps_rules
  config_stage-Keeps env malformed = search keeps_rules
  config_stage-Keeps env (parsed doc) =
      search (keeps_rules, of_result-Keeps, Row-OffBooks, apply_settings-Keeps)

  -- Without a retry allowed, `monitor_job` leaves a finished row.
  final_result :
      (o : Option Diagnosis) → Action i (Left i false o) (pure tt) (λ _. Row is_finished i)
  unfolding pure
  final_result none = record { run = λ w h. h }
  final_result (some d) = record { run = λ w h. ground (arith, h.1) }

  second_build-Finished :
      (env : Env) (allow : Bool) (rerun : Run) (o : Option Diagnosis)
      → Action i (Left i allow o) (second_build env i rerun o) (λ _. Row is_finished i)
  unfolding second_build pure
  second_build-Finished env allow rerun none = record { run = λ w h. h }
  second_build-Finished env allow rerun (some d) =
      Triple-weaken _
        (kept i anything _ _ (add_note-Keeps (Row-OffBooks anything i) i _) λ _.
          kept i anything _ _ (create_build_job-Keeps (Row-OffBooks anything i) env.fix_job _) λ _.
            Triple-bind (Left i false) _ _
              (monitor_job-Left i env.log_bucket env.deletes false _ rerun) final_result)
        (λ w h. h.0) (λ a w h. h) (λ w h. h)

  ack-Finished : (m : ℕ) → Action i (Row is_finished i) (ack_message m) (λ _. Row is_finished i)
  unfolding ack_message modify
  ack-Finished m =
      kept i is_finished _ _ (use_queue-Keeps (Row-OffBooks is_finished i))
        λ _. record { run = λ w h. h }

  build_stages-Finished :
      (env : Env) (run rerun : Run) (row : Option Deployment) (m : Message)
      → Action i (Row anything i) (build_stages env run rerun row m i) (λ _. Row is_finished i)
  unfolding build_stages
  build_stages-Finished env run rerun row m =
      let books = Row-OffBooks anything i in
      let cluster = Row-OffCluster anything i in
      kept i anything _ _ (bound_repo_mismatch-Keeps books _ _) λ other_repo.
        kept i anything _ _ (Keeps-require _ _) λ _.
          kept i anything _ _ (github_stage-Keeps cluster env i _) λ _.
            kept i anything _ _ (clone_stage-Keeps cluster books env i) λ _.
              kept i anything _ _ (config_stage-Keeps env _) λ c.
                kept i anything _ _ (context_stage-Keeps books row m c) λ folder.
                  kept i anything _ _ (folder_stage-Keeps books env folder) λ _.
                    kept i anything _ _ (registry_stage-Keeps cluster env i _) λ _.
                      kept i anything _ _ (create_build_job-Keeps books env.job _) λ _.
                        Triple-bind (Left i _) _ _
                          (monitor_job-Left i env.log_bucket env.deletes _ _ run)
                          λ retry.
                            Triple-bind (λ _. Row is_finished i) _ _
                              (second_build-Finished env _ rerun retry) λ _. ack-Finished m.id

  handler-Finished :
      (m : Message) (e : Exn)
      → Action i (Row anything i) (build_failed_handler m i e) (λ _. Row is_finished i)
  unfolding build_failed_handler add_to_dlq modify
  handler-Finished m e =
      Triple-bind (λ _. Row is_finished i) _ _
        (update_state-Row anything is_finished i failed (some (failure_of e)) (λ d now h. refl))
        (λ _.
          kept i is_finished _ _ (use_queue-Keeps (Row-OffBooks is_finished i))
            λ _. record { run = λ w h. h })

  build_message-Finished :
      (env : Env) (run rerun : Run) (row : Option Deployment) (m : Message)
      → Action i (Row anything i) (build_message env run rerun row m i) (λ _. Row is_finished i)
  unfolding build_message clean_up
  build_message-Finished env run rerun row m =
      Triple-finally (λ _. Row is_finished i) (Row anything i) _ (clean_up env.deletes i)
        (Triple-catch (Row anything i) _ _ (build_stages-Finished env run rerun row m)
          (handler-Finished m))
        (λ a w h. h) (λ w h. h)

  open_not_built : (o : Option Deployment) → passes is_open o ≡ true → already_built o ≡ false
  unfolding already_built
  open_not_built none h = refl
  open_not_built (some d) h = ground arith

  get_deployment-Open :
      Action i
        (Row is_open i)
        (get_deployment i)
        (λ o w. Row anything i w × (already_built o ≡ false))
  unfolding get_deployment gets
  get_deployment-Open =
      kept i is_open _ _ (use_db-Keeps (Row-OffBooks is_open i))
        λ _. record { run = λ w h. (Row-anything is_open i w h, open_not_built _ h) }

  module _ (env : Env) (run rerun : Run) (m : Message) (complete : lacks_fields m ≡ false)
      (is_build : m.is_rollback ≡ false) where
    dispatch-Finished :
        (row : Option Deployment)
        → already_built row ≡ false
        → Action i (Row anything i) (dispatch env run rerun m i row) (λ _. Row is_finished i)
    unfolding dispatch
    dispatch-Finished row fresh =
        Triple-else _ _ _ fresh
          (Triple-else _ _ _ is_build (build_message-Finished env run rerun row m))

    ready :
        (row : Option Deployment)
        → Action i
            (λ w. Row anything i w × (already_built row ≡ false))
            (dispatch env run rerun m i row)
            (λ _. Row is_finished i)
    ready row = record { run = λ w h. (dispatch-Finished row h.1).run w h.0 }

    process_valid-Finished :
        Action i (Row is_open i) (process_valid env run rerun m (some i)) (λ _. Row is_finished i)
    unfolding process_valid
    process_valid-Finished = Triple-else _ _ _ complete (
        Triple-bind (λ o w. Row anything i w × (already_built o ≡ false)) _ _ get_deployment-Open
          ready)

-- For a message that asks for a build, with its fields in order, of a deployment whose row is there and
-- not yet handed on: whatever git, the cluster, the registry and the repository answer, and whatever
-- uses of the database fail, once `process_message` returns the row is either `Failed`, or `Deploying`
-- with a valid digest of the image. If it raises, the row is still there.
pub finished-process_message :
    (env : Env) (run rerun : Run) (m : Message) (w : World) (i : RowId)
    → m.deployment_id ≡ some i
    → lacks_fields m ≡ false
    → m.is_rollback ≡ false
    → Row is_open i w
    → Holds
        (λ _. Row is_finished i)
        (Row anything i)
        (process_message env run rerun m w).0
        (process_message env run rerun m w).1
unfolding process_message modify ◌>>=◌
finished-process_message env run rerun m w i names complete is_build unbuilt =
    (subst
        (λ o. Action i (Row is_open i) (process_valid env run rerun m o) (λ _. Row is_finished i))
        (sym names) (process_valid-Finished i env run rerun m complete is_build)).run
      (record w { held = [] }) unbuilt
