-- ===== src/Worker/Process/Outcomes.antt =====
-- How a build ends for the row of its deployment.
use ship_zen_gcp.Prelude.{
  ℕ, ◌≡◌, refl, Bool, true, false, ◌&&◌, ◌||◌, Option, none, some, arith, if◌then◌else◌,
}
use ship_zen_gcp.Database.{
  RowId, State, failed, deploying, building, build_failed, Failure, Deployment,
}
use ship_zen_gcp.Worker.World.{Exn, Job, World, M, pure, raise, ◌>>=◌, ◌>>◌, failure_of, require}
use ship_zen_gcp.Worker.World.Rules.{
  Triple, Keeps, Keeps-pure, Keeps-require, Triple-bind, Triple-catch, Triple-finally, Triple-if,
  Triple-weaken, Keeps-swallow,
}
use ship_zen_gcp.Worker.Store.{is_failed, update_state}
use ship_zen_gcp.Worker.Keeping.{record_build-Keeps, note_diagnosis-Keeps, delete_job-P}
use ship_zen_gcp.Worker.Monitor.{
  Run, Diagnosis, is_valid, retries, finish_build, set_port, give_up, fail_build, follow_job,
  monitor_failed, monitor_job, delete_job,
}
use ship_zen_gcp.Worker.Process.Rows.{
  Row, anything, Row-OffBooks, Row-anything, update_row-Row, update_state-Row,
}

abbrev pub is_deploying : State → Bool
is_deploying deploying = true
is_deploying s = false

-- `Failed`, or handed to the controller with a valid digest of the image.
abbrev pub is_finished : Deployment → Bool
is_finished d = is_failed d.state || (is_deploying d.state && is_valid d.image_digest)

module _ (i : RowId) where
  -- What `monitor_job` leaves: without a diagnosis to retry with, a finished row.
  abbrev pub Left : Bool → Option Diagnosis → World → Type 0
  Left allow none w = Row is_finished i w
  Left allow (some d) w = Row anything i w × (allow ≡ true)

  abbrev has_digest : Deployment → Bool
  has_digest d = is_valid d.image_digest

  abbrev pub Action : {A : Type 0} → (World → Type 0) → M A → (A → World → Type 0) → Type 0
  Action P m Q = Triple P m Q (Row anything i)

  -- One more action that keeps what is known of the row.
  pub kept :
      {A B : Type 0} (f : Deployment → Bool) (m : M A) (n : A → M B) {Q : B → World → Type 0}
      → Keeps (Row f i) m
      → ((a : A) → Action (Row f i) (n a) Q)
      → Action (Row f i) (m >>= n) Q
  kept f m n k t =
      Triple-bind (λ _. Row f i) m n (Triple-weaken m k (λ w h. h) (λ a w h. h) (Row-anything f i))
        t

  set_port-Keeps : (o : Option ℕ) → Keeps (Row has_digest i) (set_port i o)
  unfolding set_port
  set_port-Keeps none = Keeps-pure tt
  set_port-Keeps (some n) =
      Keeps-swallow _ (update_row-Row has_digest has_digest i _ (λ d. refl) (λ d h. h))

  finish :
      (s : State) (e : Option Failure) (f : Deployment → Bool)
      → ((d : Deployment) → f d ≡ true → is_finished (record d { state = s }) ≡ true)
      → Action (Row f i) (do update_state i s e; pure none) (Left false)
  unfolding pure
  finish s e f better =
      Triple-bind (λ _. Row is_finished i) _ _
        (update_state-Row f is_finished i s e (λ d now. better d)) (λ _. record { run = λ w h. h })

  -- What follows a check may use it.
  checked :
      {A : Type 0} (f : Deployment → Bool) (b : Bool) (e : Exn) (n : M A) {Q : A → World → Type 0}
      → (b ≡ true → Action (Row f i) n Q)
      → Action (Row f i) (do require b e; n) Q
  unfolding ◌>>=◌ pure raise
  checked f true e n t = record { run = (t refl).run }
  checked f false e n t = record { run = Row-anything f i }

  finish_build-Left :
      (b : Bool) (run : Run) → Action (Row anything i) (finish_build b i run) (Left false)
  unfolding finish_build
  finish_build-Left b run = checked anything _ _ _ λ valid.
      kept anything _ _ (Keeps-require run.login _) λ _.
        kept anything _ _ (Keeps-require run.copied _) λ _.
          Triple-bind (λ _. Row has_digest i) _ _
            (update_row-Row anything has_digest i _ (λ d. refl) (λ d h. valid))
            λ _. kept has_digest _ _ (set_port-Keeps run.exposed) λ _.
              kept has_digest _ _ (record_build-Keeps (Row-OffBooks has_digest i) b i _)
                λ _. finish deploying none has_digest (λ d h. ground arith)

  give_up-Left : Action (Row anything i) (give_up i) (Left false)
  unfolding give_up
  give_up-Left = finish failed (some build_failed) anything (λ d h. refl)

  weaken-Left : (allow : Bool) (r : Option Diagnosis) (w : World) → Left false r w → Left allow r w
  weaken-Left allow none w h = h
  weaken-Left allow (some d) w h = (h.0, ground arith)

  retry-Left :
      (allow : Bool) (o : Option Diagnosis)
      → Action (Row anything i) (if retries allow o then pure o else give_up i) (Left allow)
  unfolding pure
  retry-Left allow none = Triple-weaken _ give_up-Left (λ w h. h) (weaken-Left allow) (λ w h. h)
  retry-Left allow (some d) =
      Triple-if (retries allow (some d)) (pure (some d)) (give_up i)
        (λ yes. record { run = λ w h. (h, ground arith) })
        (λ no. Triple-weaken _ give_up-Left (λ w h. h) (weaken-Left allow) (λ w h. h))

  fail_build-Left :
      (b allow : Bool) (run : Run) → Action (Row anything i) (fail_build b allow i run) (Left allow)
  unfolding fail_build
  fail_build-Left b allow run =
      kept anything _ _ (record_build-Keeps (Row-OffBooks anything i) b i _) λ _.
        kept anything _ _ (note_diagnosis-Keeps (Row-OffBooks anything i) i run.classified)
          λ _. retry-Left allow run.classified

  follow_job-Left :
      (b allow : Bool) (run : Run) → Action (Row anything i) (follow_job b allow i run) (Left allow)
  unfolding follow_job
  follow_job-Left b allow run = kept anything _ _ (Keeps-require run.pod_appears _) λ _.
      Triple-bind (λ _. Row anything i) _ _
        (update_state-Row anything anything i building none (λ d now h. refl))
        λ _.
          Triple-if _ _ _
            (λ yes.
              Triple-weaken _ (finish_build-Left b run) (λ w h. h) (weaken-Left allow) (λ w h. h))
            (λ no. fail_build-Left b allow run)

  monitor_failed-Left :
      (b : Bool) (e : Exn) → Action (Row anything i) (monitor_failed b i e) (Left false)
  unfolding monitor_failed
  monitor_failed-Left b e =
      kept anything _ _ (record_build-Keeps (Row-OffBooks anything i) b i _)
        λ _. finish failed (some (failure_of e)) anything (λ d h. refl)

  delete_job-Left :
      (deletes : Bool) (j : Job) (allow : Bool) (r : Option Diagnosis) (w : World)
      → Left allow r w
      → Left allow r (delete_job deletes j w)
  delete_job-Left deletes j allow none w h = delete_job-P (Row-OffBooks is_finished i) deletes j w h
  delete_job-Left deletes j allow (some d) w h =
      (delete_job-P (Row-OffBooks anything i) deletes j w h.0, h.1)

  pub monitor_job-Left :
      (b deletes allow : Bool) (j : Job) (run : Run)
      → Action (Row anything i) (monitor_job b deletes allow j i run) (Left allow)
  unfolding monitor_job
  monitor_job-Left b deletes allow j run =
      Triple-finally (Left allow) (Row anything i) _ (delete_job deletes j)
        (Triple-catch (Row anything i) _ _ (follow_job-Left b allow run) (λ e.
          Triple-weaken _ (monitor_failed-Left b e) (λ w h. h) (weaken-Left allow) (λ w h. h)))
        (delete_job-Left deletes j allow) (delete_job-P (Row-OffBooks anything i) deletes j)
