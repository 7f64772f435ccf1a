-- ===== src/Controller/Projects/Lifecycle.antt =====
-- Which way the status of a project may go in a sweep.
use ship_zen_gcp.Prelude.{
  ℕ, ◌≡◌, refl, ◌∙◌, ap, Bool, true, false, not, ◌&&◌, ◌||◌, List, [], ◌∷◌, Option, none, some,
  find?, ◌==◌, if◌then◌else◌, Bool-cases, inl, inr, arith,
}
use ship_zen_gcp.Database.{
  RowId, Status, provisioning, ready, terminating, failed, terminated, Project, Tables,
}
use ship_zen_gcp.Database.Statements.{update}
use ship_zen_gcp.Controller.Release.{Settings, set_live, promote_release, end_grace}
use ship_zen_gcp.Controller.Sweep.{Seen, Swept, set_state, replace_previews, reconcile_deployments}
use ship_zen_gcp.Controller.Sweep.Keeping.{Survives, reconcile_deployments-P}
use ship_zen_gcp.Controller.Projects.{
  Lookup, there, gone, unanswered, Course, well, no_grace, no_rows, no_route, Meets, set_status,
  Ended, ended, raised, write_status, by_lookup, provision, terminate, keep_ready, sweep_ready,
  by_status, or_failed, reconcile_project,
}

abbrev status_in : Option Project → Option Status
status_in none = none
status_in (some q) = some q.status

abbrev pub status_of : RowId → List Project → Option Status
status_of p ps = status_in (find? (λ q. q.id == p) ps)

abbrev is_there : Lookup → Bool
is_there there = true
is_there l = false

abbrev is_gone : Lookup → Bool
is_gone gone = true
is_gone l = false

abbrev is_well : Course → Bool
is_well well = true
is_well c = false

-- Nothing that the sweep meets raises.
abbrev all_well : Meets → Bool
all_well m =
    m.git
    && (is_there m.namespace || is_gone m.namespace)
    && m.services
    && m.status_written
    && is_well m.course

-- A project stays as it is if there is nothing to change yet or something raised, and fails only if
-- something raised.
abbrev pub may_become : Meets → Status → Status → Bool
may_become m provisioning provisioning = is_gone m.namespace || not (all_well m)
may_become m provisioning ready = is_there m.namespace && m.services
may_become m provisioning failed = not (all_well m)
may_become m ready ready = is_there m.namespace || not (all_well m)
may_become m ready provisioning = is_gone m.namespace
may_become m ready failed = not (all_well m)
may_become m terminating terminating = is_there m.namespace || not (all_well m)
may_become m terminating terminated = is_gone m.namespace && m.services
may_become m terminating failed = not (all_well m)
may_become m failed failed = true
may_become m terminated terminated = true
may_become m terminated failed = true
may_become m a b = false

abbrev pub becomes : Meets → Status → Option Status → Bool
becomes m a none = false
becomes m a (some b) = may_become m a b

status_of-update :
    (p : RowId) (s old : Status) (ps : List Project)
    → status_of p ps ≡ some old
    → status_of p (update (λ q. q.id == p) (λ q. record q { status = s }) ps) ≡ some s
unfolding update
status_of-update p s old [] h = ground arith
status_of-update p s old (q ∷ ps) h =
    at_row (q.id == p) q (find? (λ q. q.id == p) ps) _ refl (status_of-update p s old ps) h
  where
    at_row :
        (b : Bool) (q : Project) (o o' : Option Project)
        → (q.id == p) ≡ b
        → (status_in o ≡ some old → status_in o' ≡ some s)
        → status_in (if b then some q else o) ≡ some old
        → status_in (
            if (if b then record q { status = s } else q).id == p
            then some (if b then record q { status = s } else q)
            else o')
          ≡ some s
    at_row true q o o' e k h = rw e refl
    at_row false q o o' e k h = rw e (k h)

pick :
    (b : Bool) (q r : Project) (o o' : Option Project)
    → r.status ≡ q.status
    → status_in o ≡ status_in o'
    → status_in (if b then some r else o) ≡ status_in (if b then some q else o')
pick true q r o o' h k = ap some h
pick false q r o o' h k = k

status_of-set_live :
    (p p' : RowId) (i : Option RowId) (ps : List Project)
    → status_of p (set_live p' i ps) ≡ status_of p ps
unfolding set_live update
status_of-set_live p p' i [] = refl
status_of-set_live p p' i (q ∷ ps) =
    let rest = status_of-set_live p p' i ps in
    elim (Bool-cases (q.id == p')) [
      | inl e ↦ rw e (pick (q.id == p) q (record q { live_deployment_id = i }) _ _ refl rest)
      | inr e ↦ rw e (pick (q.id == p) q q _ _ refl rest)
    ]

module _ (p : RowId) where
  abbrev Is : Status → Tables → Type 0
  Is st t = status_of p t.projects ≡ some st

  Is-Survives : (st : Status) → Survives (Is st)
  unfolding set_state replace_previews promote_release end_grace
  Is-Survives st = record {
    states = λ i s e t off h. h;
    previews = λ p d t h. h;
    promotions = λ s now p' i t h. status_of-set_live p p' (some i) t.projects ∙ h;
    graces = λ now p t h. h;
  }

  abbrev Becomes : Meets → Status → Swept → Type 0
  Becomes m a w = becomes m a (status_of p w.tables.projects) ≡ true

  -- A status that is reached by an allowed change.
  by_change :
      (m : Meets) (a b : Status) (w : Swept)
      → may_become m a b ≡ true
      → Is b w.tables
      → Becomes m a w
  by_change m a b w ok is = rw is ok

  set-Is : (a b : Status) (w : Swept) → Is a w.tables → Is b (set_status p b w).tables
  unfolding set_status
  set-Is a b w h = status_of-update p b a w.tables.projects h

  module _ (m : Meets) (rescued : Bool) where
    -- However the work ends, the status is one that the change may lead to.
    abbrev Leads : Status → Ended → Type 0
    Leads a e = Becomes m a (or_failed rescued p e)

    ended-Leads :
        (a b : Status) (w : Swept) → may_become m a b ≡ true → Is b w.tables → Leads a (ended w)
    ended-Leads a b w to h = by_change m a b w to h

    raised-Leads :
        (a : Status) (w : Swept)
        → may_become m a a ≡ true
        → may_become m a failed ≡ true
        → Is a w.tables
        → Leads a (raised w)
    raised-Leads a w stay fail h = elim (Bool-cases rescued) [
      | inl e ↦ rw e (by_change m a failed (set_status p failed w) fail (set-Is a failed w h))
      | inr e ↦ rw e (by_change m a a w stay h)
    ]

    branch-Leads :
        (a : Status) (b : Bool) (x y : Ended)
        → (b ≡ true → Leads a x)
        → (b ≡ false → Leads a y)
        → Leads a (if b then x else y)
    branch-Leads a true x y h k = h refl
    branch-Leads a false x y h k = k refl

    write-Leads :
        (ok : Bool) (a b : Status) (w : Swept)
        → may_become m a b ≡ true
        → (ok ≡ false → (may_become m a a ≡ true) × (may_become m a failed ≡ true))
        → Is a w.tables
        → Leads a (write_status ok p b w)
    write-Leads true a b w to fail h = ended-Leads a b (set_status p b w) to (set-Is a b w h)
    write-Leads false a b w to fail h = raised-Leads a w (fail refl).0 (fail refl).1 h

    lookup-Leads :
        (a : Status) (l : Lookup) (x y : Ended) (w : Swept)
        → (is_there l ≡ true → Leads a x)
        → (is_gone l ≡ true → Leads a y)
        → ((is_there l || is_gone l) ≡ false → Leads a (raised w))
        → Leads a (by_lookup l x y w)
    lookup-Leads a there x y w h k r = h refl
    lookup-Leads a gone x y w h k r = k refl
    lookup-Leads a unanswered x y w h k r = r refl

    provision-Leads : (w : Swept) → Is provisioning w.tables → Leads provisioning (provision m p w)
    unfolding provision
    provision-Leads w h =
        branch-Leads provisioning m.git _ _
          (λ e.
            lookup-Leads provisioning m.namespace _ _ w
              (λ here.
                branch-Leads provisioning m.services _ _
                  (λ f.
                    write-Leads m.status_written provisioning ready w (ground (arith, here, f))
                      (λ k. (ground (arith, k), ground (arith, k))) h)
                  (λ f. raised-Leads provisioning w (ground (arith, f)) (ground (arith, f)) h))
              (λ away. ended-Leads provisioning provisioning w (ground (arith, away)) h)
              (λ f. raised-Leads provisioning w (ground (arith, f)) (ground (arith, f)) h))
          (λ e. raised-Leads provisioning w (ground (arith, e)) (ground (arith, e)) h)

    terminate-Leads : (w : Swept) → Is terminating w.tables → Leads terminating (terminate m p w)
    unfolding terminate
    terminate-Leads w h =
        branch-Leads terminating m.git _ _
          (λ e.
            lookup-Leads terminating m.namespace _ _ w
              (λ here. ended-Leads terminating terminating w (ground (arith, here)) h)
              (λ away.
                branch-Leads terminating m.services _ _
                  (λ f.
                    write-Leads m.status_written terminating terminated w (ground (arith, away, f))
                      (λ k. (ground (arith, k), ground (arith, k))) h)
                  (λ f. raised-Leads terminating w (ground (arith, f)) (ground (arith, f)) h))
              (λ f. raised-Leads terminating w (ground (arith, f)) (ground (arith, f)) h))
          (λ e. raised-Leads terminating w (ground (arith, e)) (ground (arith, e)) h)

    sweep_ready-Leads :
        (c : Course) (s : Settings) (now : ℕ) (q : Project) (view : RowId → Option Seen) (w : Swept)
        → (is_well c ≡ false → is_well m.course ≡ false)
        → is_there m.namespace ≡ true
        → Is ready w.tables
        → Leads ready (sweep_ready s now c q view w)
    unfolding sweep_ready
    sweep_ready-Leads well s now q view w k here h =
        ended-Leads ready ready (reconcile_deployments s now q view w) (ground (arith, here))
          (reconcile_deployments-P (Is-Survives ready) s now q view w h)
    sweep_ready-Leads no_grace s now q view w k here h =
        raised-Leads ready w (ground (arith, here)) (ground (arith, k refl)) h
    sweep_ready-Leads no_rows s now q view w k here h =
        raised-Leads ready (record w { tables = end_grace now q.id w.tables })
          (ground (arith, here)) (ground (arith, k refl))
          ((Is-Survives ready).graces now q.id w.tables h)
    sweep_ready-Leads no_route s now q view w k here h =
        raised-Leads ready (reconcile_deployments s now q view w) (ground (arith, here))
          (ground (arith, k refl)) (reconcile_deployments-P (Is-Survives ready) s now q view w h)

    keep_ready-Leads :
        (s : Settings) (now : ℕ) (q : Project) (view : RowId → Option Seen) (w : Swept)
        → q.id ≡ p
        → Is ready w.tables
        → Leads ready (keep_ready s now m q view w)
    unfolding keep_ready
    keep_ready-Leads s now q view w mine h =
        lookup-Leads ready m.namespace _ _ w
          (λ here. sweep_ready-Leads m.course s now q view w (λ k. k) here h)
          (λ away. rw mine (
            write-Leads m.status_written ready provisioning w (ground (arith, away))
              (λ k. (ground (arith, k), ground (arith, k))) h))
          (λ f. raised-Leads ready w (ground (arith, f)) (ground (arith, f)) h)

by_status-Leads :
    (s : Settings) (now : ℕ) (m : Meets) (rescued : Bool) (q : Project) (view : RowId → Option Seen)
    (w : Swept) (st : Status)
    → status_of q.id w.tables.projects ≡ some st
    → Leads q.id m rescued st (by_status s now m q view w st)
by_status-Leads s now m rescued q view w provisioning h = provision-Leads q.id m rescued w h
by_status-Leads s now m rescued q view w terminating h = terminate-Leads q.id m rescued w h
by_status-Leads s now m rescued q view w ready h =
    keep_ready-Leads q.id m rescued s now q view w refl h
by_status-Leads s now m rescued q view w failed h =
    ended-Leads q.id m rescued failed failed w refl h
by_status-Leads s now m rescued q view w terminated h =
    raised-Leads q.id m rescued terminated w refl refl h

-- Whatever the sweep meets and whatever raises, if the status that the sweep read for the project is still
-- that of its row, the status goes only these ways: from Provisioning to Ready, with its namespace there
-- and its registry and secrets served; from Ready to Provisioning, with its namespace gone; from
-- Terminating to Terminated, with its namespace gone and the registry and secrets served; and to Failed,
-- only if something raised. If nothing raises, a Provisioning project whose namespace is there becomes
-- Ready, a Ready one whose namespace is gone Provisioning, and a Terminating one whose namespace is gone
-- Terminated. A Failed project stays so.
pub reconcile_project-becomes :
    (s : Settings) (now : ℕ) (m : Meets) (rescued : Bool) (q : Project) (view : RowId → Option Seen)
    (w : Swept)
    → status_of q.id w.tables.projects ≡ some q.status
    → becomes m q.status
        (status_of q.id (reconcile_project s now m rescued q view w).tables.projects)
      ≡ true
unfolding reconcile_project
reconcile_project-becomes s now m rescued q view w h =
    by_status-Leads s now m rescued q view w q.status h
