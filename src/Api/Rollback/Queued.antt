-- ===== src/Api/Rollback/Queued.antt =====
-- What a rollback leaves in the tables.
use ship_zen_gcp.Prelude.{
  ℕ, ◌+◌, ◌≡◌, refl, Bool, true, false, List, [], ◌∷◌, ◌++◌, Option, none, some, ◌==◌, map, ap,
  if◌then◌else◌, Bool-cases, inl, inr,
}
use mathlib.Core.Path.{ap₂}
use ship_zen_gcp.Database.{RowId, queued, production, Deployment, Project, in_flight, is_up}
use ship_zen_gcp.Database.Index.{same_key, clashes, insert}
use ship_zen_gcp.Database.Index.Unique.{is_indexed, insert-is_indexed, update-is_indexed, changed}
use ship_zen_gcp.Database.Statements.{update}
use ship_zen_gcp.Api.Store.{Store, Payload, Request, Reply, ok, http, queue_deployment}
use ship_zen_gcp.Controller.Release.{set_live}
use ship_zen_gcp.Api.Create.Atomic.{insert-cases}
use ship_zen_gcp.Api.Rollback.{
  RolledBack, live_release, last_good, leave, switch_back, rollback_row, rollback_message,
  queue_rollback, roll_back_to, rollback_deployment,
}

module _ (cond : Deployment → Bool) (v : Option ℕ) where
  abbrev graced : Deployment → Deployment
  graced d = changed cond (λ d. record d { scale_down_after = v }) d

  graced_id : (d : Deployment) → (graced d).id ≡ d.id
  graced_id d = elim (Bool-cases (cond d)) [ inl e ↦ rw e refl | inr e ↦ rw e refl ]

  graced_active : (d : Deployment) → in_flight (graced d).state ≡ true → in_flight d.state ≡ true
  graced_active d = elim (Bool-cases (cond d)) [ inl e ↦ rw e (λ h. h) | inr e ↦ rw e (λ h. h) ]

  graced_key : (d e : Deployment) → same_key (graced d) (graced e) ≡ same_key d e
  unfolding same_key
  graced_key d e = elim (Bool-cases (cond d)) [
    | inl a ↦ elim (Bool-cases (cond e)) [ inl b ↦ rw (a, b) refl | inr b ↦ rw (a, b) refl ]
    | inr a ↦ elim (Bool-cases (cond e)) [ inl b ↦ rw (a, b) refl | inr b ↦ rw (a, b) refl ]
  ]

  grace-is_indexed :
      (rows : List Deployment)
      → is_indexed rows ≡ true
      → is_indexed (update cond (λ d. record d { scale_down_after = v }) rows) ≡ true
  grace-is_indexed rows h =
      update-is_indexed cond (λ d. record d { scale_down_after = v }) graced_id graced_key
        graced_active rows h

leave-is_indexed :
    (until : ℕ) (live : Option Deployment) (rows : List Deployment)
    → is_indexed rows ≡ true
    → is_indexed (leave until live rows) ≡ true
leave-is_indexed until none rows h = h
leave-is_indexed until (some live) rows h =
    grace-is_indexed (λ d. d.id == live.id) (some until) rows h

if-is_indexed :
    (b : Bool) (x y : Reply RolledBack × Store)
    → is_indexed x.1.deployments ≡ true
    → is_indexed y.1.deployments ≡ true
    → is_indexed (if b then x else y).1.deployments ≡ true
if-is_indexed true x y h k = h
if-is_indexed false x y h k = k

module _ (req : Request) (grace : ℕ) (p : RowId) (live : Option Deployment) (s : Store) where
  -- The project points at the release that is live again; its grace period is cleared, and the release
  -- that is left gets one.
  abbrev pub pointed : RowId → Project → Project
  pointed i q = if q.id == p then record q { live_deployment_id = some i } else q

  abbrev is_the : RowId → Option Deployment → Bool
  is_the i none = false
  is_the i (some l) = i == l.id

  abbrev pub swapped : Option Deployment → RowId → Deployment → Deployment
  swapped o i d =
      if is_the d.id o
      then record d { scale_down_after = some (req.now + grace) }
      else if d.id == i
      then record d { scale_down_after = none }
      else d

  -- The new row: of this project, production, queued, with the image and its digest.
  abbrev pub IsRebuilt : Deployment → Deployment → Type 0
  IsRebuilt good d =
      (d.id ≡ req.fresh)
      × (d.project ≡ p)
      × (d.state ≡ queued)
      × (d.kind ≡ production)
      × (d.replicas ≡ some 1)
      × (d.image_uri ≡ good.image_uri)
      × (d.image_digest ≡ good.image_digest)
      × (d.port ≡ good.port)

  -- The message: for that row and image, and with the mark by which the worker skips the build.
  abbrev pub IsSkipping : Deployment → Payload → Type 0
  IsSkipping good m =
      (m.deployment_id ≡ req.fresh)
      × (m.project_id ≡ p)
      × (m.image_name ≡ good.image_uri)
      × (m.is_rollback ≡ true)

  -- What a rollback to `good` may leave. Instant, if `good` is up: exactly the switch, and no message.
  -- Queued, if not: one row and one message more. Refused: no change.
  abbrev pub Outcome : Deployment → Reply RolledBack → Store → Type 0
  Outcome good (ok r) after =
      if r.instant
      then (r.deployment ≡ good.id)
        × (is_up good.replicas ≡ true)
        × (after.projects ≡ map (pointed good.id) s.projects)
        × (after.deployments ≡ map (swapped live good.id) s.deployments)
        × (after.outbox ≡ s.outbox)
      else (r.deployment ≡ req.fresh)
        × (is_up good.replicas ≡ false)
        × (after.projects ≡ s.projects)
        × (after.deployments ≡ s.deployments ++ rollback_row req p good ∷ [])
        × IsRebuilt good (rollback_row req p good)
        × (after.outbox ≡ s.outbox ++ rollback_message (rollback_row req p good) ∷ [])
        × IsSkipping good (rollback_message (rollback_row req p good))
        × (clashes (rollback_row req p good) s.deployments ≡ false)
  Outcome good (http n) after = after ≡ s

  update-map :
      {A : Type 0} (cond : A → Bool) (set : A → A) (xs : List A)
      → update cond set xs ≡ map (λ x. if cond x then set x else x) xs
  unfolding update
  update-map cond set [] = refl
  update-map cond set (x ∷ xs) =
      ap (λ r. (if cond x then set x else x) ∷ r) (update-map cond set xs)

  -- What the two UPDATEs make of one row.
  abbrev cleared : RowId → Deployment → Deployment
  cleared i d = if d.id == i then record d { scale_down_after = none } else d

  both_updates :
      (l : Deployment) (i : RowId) (d : Deployment)
      → (if (cleared i d).id == l.id
          then record (cleared i d) { scale_down_after = some (req.now + grace) }
          else cleared i d)
        ≡ swapped (some l) i d
  both_updates l i d = elim (Bool-cases (d.id == i)) [
    | inl a ↦ rw a (elim (Bool-cases (d.id == l.id)) [ inl b ↦ rw b refl | inr b ↦ rw b refl ])
    | inr a ↦ rw a (elim (Bool-cases (d.id == l.id)) [ inl b ↦ rw b refl | inr b ↦ rw b refl ])
  ]

  left_behind :
      (i : RowId) (o : Option Deployment) (rows : List Deployment)
      → leave
          (req.now + grace)
          o
          (update (λ d. d.id == i) (λ d. record d { scale_down_after = none }) rows)
        ≡ map (swapped o i) rows
  unfolding update
  left_behind i none rows =
      update-map (λ d. d.id == i) (λ d. record d { scale_down_after = none }) rows
  left_behind i (some l) [] = refl
  left_behind i (some l) (d ∷ rows) =
      ap₂ (λ e es. e ∷ es) (both_updates l i d) (left_behind i (some l) rows)

  queued-Outcome :
      (good : Deployment)
      → is_up good.replicas ≡ false
      → Outcome good
          (queue_rollback req
            (rollback_row req p good)
            (insert (rollback_row req p good) s.deployments)
            s).0
          (queue_rollback req
            (rollback_row req p good)
            (insert (rollback_row req p good) s.deployments)
            s).1
  unfolding rollback_row rollback_message queue_deployment
  queued-Outcome good down =
      let d = rollback_row req p good in
      insert-cases (λ o. Outcome good (queue_rollback req d o s).0 (queue_rollback req d o s).1) d
        s.deployments refl
        (λ free. elim (Bool-cases req.committed) [
          | inl e ↦ simp e (
            refl,
            down,
            refl,
            refl,
            (refl, refl, refl, refl, refl, refl, refl, refl),
            refl,
            (refl, refl, refl, refl),
            free,
          )
          | inr e ↦ simp e refl
        ])

  switched-Outcome :
      (good : Deployment)
      → is_up good.replicas ≡ true
      → Outcome good
          (ok (record { deployment = good.id; instant = true }))
          (switch_back req.now grace p live good s)
  unfolding switch_back set_live
  switched-Outcome good up = (
    refl,
    up,
    update-map (λ q. q.id == p) (λ q. record q { live_deployment_id = some good.id }) s.projects,
    left_behind good.id live s.deployments,
    refl,
  )

  pub roll_back_to-Outcome :
      (good : Deployment)
      → Outcome good
          (roll_back_to req grace p live (some good) s).0
          (roll_back_to req grace p live (some good) s).1
  roll_back_to-Outcome good = elim (Bool-cases (is_up good.replicas)) [
    | inl a ↦ simp a (elim (Bool-cases req.committed) [
      | inl b ↦ simp b (switched-Outcome good a)
      | inr b ↦ simp b refl
    ])
    | inr a ↦ simp a (queued-Outcome good a)
  ]

  roll_back_to-is_indexed :
      (o : Option Deployment)
      → is_indexed s.deployments ≡ true
      → is_indexed (roll_back_to req grace p live o s).1.deployments ≡ true
  unfolding switch_back queue_deployment
  roll_back_to-is_indexed none h = h
  roll_back_to-is_indexed (some good) h =
      let d = rollback_row req p good in
      elim (Bool-cases (is_up good.replicas)) [
        | inl a ↦ rw a (elim (Bool-cases req.committed) [
          | inl b ↦ rw b (
              leave-is_indexed (req.now + grace) live _
                (grace-is_indexed (λ d. d.id == good.id) none s.deployments h))
          | inr b ↦ rw b h
        ])
        | inr a ↦ rw a (
            insert-cases (λ o. is_indexed (queue_rollback req d o s).1.deployments ≡ true) d
              s.deployments h
              (λ free.
                if-is_indexed req.committed _ _ (insert-is_indexed s.deployments d h free) h))
      ]

  -- A rollback to a release that is still up switches at once: the project points at it, its grace period
  -- is cleared, the release left gets one, and nothing is queued. One to a release that is not adds one
  -- row with the very image and digest of that release, clashing with no other, and exactly one message
  -- for it, marked to skip the build. Either may be refused, and then nothing changes.
  pub rollback_deployment-Outcome :
      (pointer : Option RowId) (good : Deployment)
      → live_release p pointer s.deployments ≡ live
      → last_good p live s.deployments ≡ some good
      → Outcome good
          (rollback_deployment req grace p pointer s).0
          (rollback_deployment req grace p pointer s).1
  unfolding rollback_deployment
  rollback_deployment-Outcome pointer good is_live is_good =
      rw (is_live, is_good) (roll_back_to-Outcome good)

-- A rollback keeps the table's invariant: at most one active production deployment of a project and at
-- most one active preview of a pull request.
pub rollback_deployment-is_indexed :
    (req : Request) (grace : ℕ) (p : RowId) (pointer : Option RowId) (s : Store)
    → is_indexed s.deployments ≡ true
    → is_indexed (rollback_deployment req grace p pointer s).1.deployments ≡ true
unfolding rollback_deployment
rollback_deployment-is_indexed req grace p pointer s h =
    roll_back_to-is_indexed req grace p (live_release p pointer s.deployments) s
      (last_good p (live_release p pointer s.deployments) s.deployments) h
