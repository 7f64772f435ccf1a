-- ===== src/Worker/Keeping.antt =====
-- Facts about the world that the bookkeeping of a build leaves alone: what does not depend on the
-- tables, the log of notes and builds, or the Jobs, holds through every stage that writes only these.
pub mod Cluster
use ship_zen_gcp.Prelude.{
  ◌≡◌, refl, ℕ, Bool, true, false, List, [], ◌∷◌, Text, Option, none, some, Bool-cases, inl, inr,
}
use ship_zen_gcp.Database.{RowId, State, Failure, Deployment}
use ship_zen_gcp.Shared.RepoConfig
use ship_zen_gcp.Shared.RepoConfig.{Config}
use ship_zen_gcp.Worker.World.{Exn, database, other, Job, BuildStatus, Message, World, Note}
use ship_zen_gcp.Worker.World.Rules.{
  Keeps, Holds, Keeps-modify, Keeps-finally, Keeps-catch, keeps_rules,
}
use ship_zen_gcp.Worker.Store.{
  after_fault, set_state, breaks_index, use_db, use_queue, update_row, update_state, get_deployment,
  add_note, record_build,
}
use ship_zen_gcp.Worker.Monitor.{
  Run, Diagnosis, set_port, note_diagnosis, give_up, finish_build, fail_build, follow_job,
  monitor_failed, monitor_job, delete_job,
}
use ship_zen_gcp.Worker.Stages.{
  Env, Answer, created, conflict, refused, ConfigFile, absent, malformed, parsed,
  bound_repo_mismatch, config_stage, context_stage, folder_stage, create_build_job, of_result,
  chosen, compare_names, apply_settings,
}
use ship_zen_gcp.Worker.Process.{second_build}

-- `P` does not depend on the books: the faults to come, the notes, the builds and the Jobs.
pub record OffBooks (P : World → Type 0) : Type 0 where
  pub faults :
      (b : Bool) (fs : List Bool) (w : World)
      → w.faults ≡ b ∷ fs
      → P w
      → P (record w { faults = fs })
  pub notes : (ns : List (RowId × Note)) (w : World) → P w → P (record w { notes = ns })
  pub builds : (bs : List (RowId × BuildStatus)) (w : World) → P w → P (record w { builds = bs })
  pub jobs : (js : List Job) (w : World) → P w → P (record w { jobs = js })

-- Nor on the table of deployments.
pub record Unrelated (P : World → Type 0) : Type 0 where
  pub books : OffBooks P
  pub rows : (ds : List Deployment) (w : World) → P w → P (record w { deployments = ds })

module _ {P : World → Type 0} (u : OffBooks P) where
  after_fault-Holds :
      (x : Exn) (fs : List Bool) (w : World)
      → w.faults ≡ fs
      → P w
      → Holds {A = Unit {0}} (λ _. P) P (after_fault x fs w).0 (after_fault x fs w).1
  after_fault-Holds x [] w e h = h
  after_fault-Holds x (false ∷ fs) w e h = u.faults false fs w e h
  after_fault-Holds x (true ∷ fs) w e h = u.faults true fs w e h

  pub use_db-Keeps : Keeps P use_db
  unfolding use_db
  use_db-Keeps = record { run = λ w h. after_fault-Holds database w.faults w refl h }

  pub use_queue-Keeps : Keeps P use_queue
  unfolding use_queue
  use_queue-Keeps = record { run = λ w h. after_fault-Holds other w.faults w refl h }

  pub get_deployment-Keeps : (i : RowId) → Keeps P (get_deployment i)
  unfolding get_deployment
  get_deployment-Keeps i = search (keeps_rules, use_db-Keeps)

  pub add_note-Keeps : (i : RowId) (n : Note) → Keeps P (add_note i n)
  unfolding add_note
  add_note-Keeps i n = search (keeps_rules, use_db-Keeps, Keeps-modify, u.notes)

  pub record_build-Keeps : (b : Bool) (i : RowId) (s : BuildStatus) → Keeps P (record_build b i s)
  unfolding record_build
  record_build-Keeps b i s = search (keeps_rules, use_db-Keeps, Keeps-modify, u.builds)

  pub note_diagnosis-Keeps : (i : RowId) (d : Option Diagnosis) → Keeps P (note_diagnosis i d)
  unfolding note_diagnosis
  note_diagnosis-Keeps i none = search keeps_rules
  note_diagnosis-Keeps i (some d) = search add_note-Keeps

  pub delete_job-P : (b : Bool) (j : Job) (w : World) → P w → P (delete_job b j w)
  unfolding delete_job
  delete_job-P true j w h = u.jobs _ w h
  delete_job-P false j w h = h

  pub create_build_job-Keeps : (a : Answer) (j : Job) → Keeps P (create_build_job a j)
  unfolding create_build_job
  create_build_job-Keeps created j = search (keeps_rules, Keeps-modify, u.jobs)
  create_build_job-Keeps conflict j = search keeps_rules
  create_build_job-Keeps refused j = search keeps_rules

  compare_names-Keeps : (a b : Option Text) → Keeps P (compare_names a b)
  compare_names-Keeps none b = search keeps_rules
  compare_names-Keeps (some a) none = search keeps_rules
  compare_names-Keeps (some a) (some b) = search keeps_rules

  pub bound_repo_mismatch-Keeps :
      (p : Option RowId) (url : Text) → Keeps P (bound_repo_mismatch p url)
  unfolding bound_repo_mismatch
  bound_repo_mismatch-Keeps none url = search keeps_rules
  bound_repo_mismatch-Keeps (some p) url = search (keeps_rules, use_db-Keeps, compare_names-Keeps)

  pub of_result-Keeps : (r : RepoConfig.Parsed Config) → Keeps P (of_result r)
  of_result-Keeps (RepoConfig.ok c) = search keeps_rules
  of_result-Keeps (RepoConfig.err e) = search keeps_rules

  chosen-Keeps : (a b : Option Text) → Keeps P (chosen a b)
  chosen-Keeps (some a) b = search keeps_rules
  chosen-Keeps none none = search keeps_rules
  chosen-Keeps none (some b) = search (keeps_rules, of_result-Keeps)

  pub context_stage-Keeps :
      (row : Option Deployment) (m : Message) (c : Config) → Keeps P (context_stage row m c)
  unfolding context_stage
  context_stage-Keeps row m c = chosen-Keeps _ _

  pub folder_stage-Keeps : (env : Env) (f : Option Text) → Keeps P (folder_stage env f)
  unfolding folder_stage
  folder_stage-Keeps env f = search keeps_rules

module _ {P : World → Type 0} (u : Unrelated P) where
  pub update_row-Keeps : (i : RowId) (set : Deployment → Deployment) → Keeps P (update_row i set)
  unfolding update_row
  update_row-Keeps i set = search (keeps_rules, use_db-Keeps u.books, Keeps-modify, u.rows)

  set_state-Keeps : (i : RowId) (s : State) (e : Option Failure) → Keeps P (set_state i s e)
  set_state-Keeps i s e = record {
    run = λ w h. elim (Bool-cases (breaks_index i s w.deployments)) [
      | inl p ↦ rw p h
      | inr p ↦ rw p (u.rows _ w h)
    ];
  }

  pub update_state-Keeps :
      (i : RowId) (s : State) (e : Option Failure) → Keeps P (update_state i s e)
  unfolding update_state
  update_state-Keeps i s e = search (keeps_rules, use_db-Keeps, u.books, set_state-Keeps)

  set_port-Keeps : (i : RowId) (o : Option ℕ) → Keeps P (set_port i o)
  unfolding set_port
  set_port-Keeps i none = search keeps_rules
  set_port-Keeps i (some n) = search (keeps_rules, update_row-Keeps)

  finish_build-Keeps : (b : Bool) (i : RowId) (run : Run) → Keeps P (finish_build b i run)
  unfolding finish_build
  finish_build-Keeps b i run =
      search
        (
          keeps_rules,
          update_row-Keeps,
          set_port-Keeps,
          record_build-Keeps u.books,
          update_state-Keeps,
        )
        depth 12

  give_up-Keeps : (i : RowId) → Keeps P (give_up i)
  unfolding give_up
  give_up-Keeps i = search (keeps_rules, update_state-Keeps)

  fail_build-Keeps : (b allow : Bool) (i : RowId) (run : Run) → Keeps P (fail_build b allow i run)
  unfolding fail_build
  fail_build-Keeps b allow i run =
      search (keeps_rules, record_build-Keeps u.books, note_diagnosis-Keeps u.books, give_up-Keeps)

  follow_job-Keeps : (b allow : Bool) (i : RowId) (run : Run) → Keeps P (follow_job b allow i run)
  unfolding follow_job
  follow_job-Keeps b allow i run =
      search (keeps_rules, update_state-Keeps, finish_build-Keeps, fail_build-Keeps)

  monitor_failed-Keeps : (b : Bool) (i : RowId) (e : Exn) → Keeps P (monitor_failed b i e)
  unfolding monitor_failed
  monitor_failed-Keeps b i e = search (keeps_rules, record_build-Keeps u.books, update_state-Keeps)

  pub monitor_job-Keeps :
      (b deletes allow : Bool) (j : Job) (i : RowId) (run : Run)
      → Keeps P (monitor_job b deletes allow j i run)
  unfolding monitor_job
  monitor_job-Keeps b deletes allow j i run =
      Keeps-finally _ (delete_job deletes j)
        (Keeps-catch _ _ (follow_job-Keeps b allow i run) (monitor_failed-Keeps b i))
        ((delete_job-P u.books) deletes j)

  apply_settings-Keeps :
      (i : RowId) (n : Option ℕ) (h : Option Text) → Keeps P (apply_settings i n h)
  unfolding apply_settings
  apply_settings-Keeps i none none = search keeps_rules
  apply_settings-Keeps i (some n) none = search update_row-Keeps
  apply_settings-Keeps i none (some h) = search update_row-Keeps
  apply_settings-Keeps i (some n) (some h) = search update_row-Keeps

  pub config_stage-Keeps : (env : Env) (i : RowId) (f : ConfigFile) → Keeps P (config_stage env i f)
  unfolding config_stage
  config_stage-Keeps env i absent = search keeps_rules
  config_stage-Keeps env i malformed = search keeps_rules
  config_stage-Keeps env i (parsed doc) =
      search (keeps_rules, of_result-Keeps u.books, apply_settings-Keeps)

  pub second_build-Keeps :
      (env : Env) (i : RowId) (run : Run) (d : Option Diagnosis)
      → Keeps P (second_build env i run d)
  unfolding second_build
  second_build-Keeps env i run none = search keeps_rules
  second_build-Keeps env i run (some d) =
      search
        (keeps_rules, add_note-Keeps u.books, create_build_job-Keeps u.books, monitor_job-Keeps)
