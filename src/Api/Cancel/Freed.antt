-- ===== src/Api/Cancel/Freed.antt =====
-- What a cancelled deployment leaves.
use ship_zen_gcp.Prelude.{
  ℕ, ◌≡◌, refl, sym, ◌∙◌, Bool, true, false, not, ◌&&◌, ◌||◌, List, [], ◌∷◌, Option, any, all, ◌==◌,
  arith, Bool-cases, inl, inr, ◌⊎◌,
}
use ship_zen_gcp.Database.{RowId, Kind, production, preview, Deployment, in_flight, is_production}
use ship_zen_gcp.Database.Index.{same_key, clashes, same_kind}
use ship_zen_gcp.Database.Index.Unique.{
  is_indexed, update-is_indexed, rivals, changed, and_intro, and_left, and_right,
}
use ship_zen_gcp.Database.Statements.{update}
use ship_zen_gcp.Api.Store.{Store, Request, Reply, ok, http}
use ship_zen_gcp.Api.Create.{is_active}
use ship_zen_gcp.Api.Cancel.{
  still_active, set_cancelled, cancel_update, cancel_check, cancel_deployment, after_check,
}

module _ (now : ℕ) (i : RowId) where
  abbrev stopped : Deployment → Deployment
  stopped d = changed (still_active i) (set_cancelled now) d

  stopped_id : (d : Deployment) → (stopped d).id ≡ d.id
  stopped_id d = elim (Bool-cases (still_active i d)) [ inl e ↦ rw e refl | inr e ↦ rw e refl ]

  stopped_key : (d e : Deployment) → same_key (stopped d) (stopped e) ≡ same_key d e
  unfolding same_key
  stopped_key d e = elim (Bool-cases (still_active i d)) [
    | inl a ↦ elim (Bool-cases (still_active i e)) [
      | inl b ↦ rw (a, b) refl
      | inr b ↦ rw (a, b) refl
    ]
    | inr a ↦ elim (Bool-cases (still_active i e)) [
      | inl b ↦ rw (a, b) refl
      | inr b ↦ rw (a, b) refl
    ]
  ]

  stopped_fewer : (d : Deployment) → in_flight (stopped d).state ≡ true → in_flight d.state ≡ true
  unfolding in_flight
  stopped_fewer d = elim (Bool-cases (still_active i d)) [
    | inl e ↦ rw e (λ h. ground arith)
    | inr e ↦ rw e (λ h. h)
  ]

  cancel_update-is_indexed :
      (s : Store)
      → is_indexed s.deployments ≡ true
      → is_indexed (cancel_update now i s).1.deployments ≡ true
  unfolding cancel_update
  cancel_update-is_indexed s h = elim (Bool-cases (any (still_active i) s.deployments)) [
    | inl e ↦ rw e (
        update-is_indexed (still_active i) (set_cancelled now) stopped_id stopped_key stopped_fewer
          s.deployments h)
    | inr e ↦ rw e h
  ]

any-implies :
    (f g own : Deployment → Bool)
    → ((d : Deployment) → own d ≡ true → f d ≡ true → g d ≡ true)
    → (ds : List Deployment) → all own ds ≡ true
    → any f ds ≡ true
    → any g ds ≡ true
any-implies f g own h [] o a = a
any-implies f g own h (d ∷ ds) o a = ground (arith, h d, any-implies f g own h ds)

both_production :
    (k l : Kind) (a b : Option ℕ)
    → is_production k ≡ true
    → is_production l ≡ true
    → same_kind k l a b ≡ true
unfolding is_production
both_production production production a b h m = refl
both_production preview l a b h m = ground arith
both_production production preview a b h m = ground arith

eq_both : (a b c : ℕ) → (a == c) ≡ true → (b == c) ≡ true → (a == b) ≡ true
eq_both a b c h k = ground arith

split3 : (a b c : Bool) → (a && b && c) ≡ true → ((a && b) ≡ true) × (c ≡ true)
split3 a b c h = ground arith

not_that : (a b : Bool) → (a && b) ≡ false → b ≡ true → a ≡ false
not_that a b h k = ground arith

neither : (a b : Bool) → a ≡ false → b ≡ false → (a || b) ≡ false
neither a b h k = ground arith

no_clash : (a r : Bool) → not (a && r) ≡ true → a ≡ true → r ≡ true → false ≡ true
no_clash a r h k l = ground arith

module _ (i p : RowId) where
  abbrev here : Deployment → Bool
  here d = d.project == p && is_production d.kind

  -- A row with the id is the project's production deployment.
  abbrev pub owns : Deployment → Bool
  owns d = not (d.id == i) || here d

  production-same_key : (d e : Deployment) → here d ≡ true → here e ≡ true → same_key d e ≡ true
  unfolding same_key
  production-same_key d e h k =
      and_intro _ _ (eq_both d.project e.project p (and_left _ _ h) (and_left _ _ k))
        (both_production d.kind e.kind d.pr_number e.pr_number (and_right _ _ h) (and_right _ _ k))

  ids_apart : (a b : ℕ) → (a == i) ≡ true → (b == i) ≡ false → not (a == b) ≡ true
  ids_apart a b h k = ground arith

  -- The row that is cancelled is a rival of every other active production row of the project.
  is-rival :
      (e : Deployment)
      → here e ≡ true
      → (e.id == i) ≡ false
      → (d : Deployment) → owns d ≡ true
      → still_active i d ≡ true
      → rivals e d ≡ true
  unfolding still_active
  is-rival e mine apart d own act =
      let is_i = and_left _ _ act in
      let here_d : here d ≡ true = ground (arith, own, is_i) in
      and_intro _ _ (and_intro _ _ (ids_apart d.id e.id is_i apart) (and_right _ _ act))
        (production-same_key e d mine here_d)

  module _ (now : ℕ) (rows : List Deployment) (own : all owns rows ≡ true)
      (act : any (still_active i) rows ≡ true) where
    -- No other row is active.
    alone :
        (e : Deployment)
        → not (clashes e rows) ≡ true
        → still_active i e ≡ false
        → is_active p e ≡ true
        → false ≡ true
    unfolding clashes still_active is_active
    alone e free gone active =
        let parts = split3 (e.project == p) (is_production e.kind) (in_flight e.state) active in
        let apart = not_that (e.id == i) (in_flight e.state) gone parts.1 in
        no_clash (in_flight e.state) (any (rivals e) rows) free parts.1
          (any-implies (still_active i) (rivals e) owns (is-rival e parts.0 apart) rows own act)

    stopped-inactive :
        (e : Deployment) → not (clashes e rows) ≡ true → is_active p (stopped now i e) ≡ false
    stopped-inactive e free = elim (Bool-cases (still_active i e)) [
      | inl a ↦ rw a (unfold is_active in_flight in ground arith)
      | inr a ↦
          rw a
            (elim (Bool-cases (is_active p e)) [ inl b ↦ b ∙ sym (alone e free a b) | inr b ↦ b ])
    ]

    none_active :
        (es : List Deployment)
        → all (λ e. not (clashes e rows)) es ≡ true
        → any (is_active p) (update (still_active i) (set_cancelled now) es) ≡ false
    unfolding update
    none_active [] h = refl
    none_active (e ∷ es) h =
        neither _ _ (stopped-inactive e (and_left _ _ h)) (none_active es (and_right _ _ h))

  abbrev pub Freed : Store → (Store → Store) → Reply (Unit {0}) → Store → Type 0
  Freed s meanwhile (ok u) after = any (is_active p) after.deployments ≡ false
  Freed s meanwhile (http n) after = (after ≡ s) ⊎ (after ≡ meanwhile s)

  cancel_update-Freed :
      (now : ℕ) (meanwhile : Store → Store) (s : Store)
      → is_indexed (meanwhile s).deployments ≡ true
      → all owns (meanwhile s).deployments ≡ true
      → Freed s meanwhile
          (cancel_update now i (meanwhile s)).0
          (cancel_update now i (meanwhile s)).1
  unfolding cancel_update is_indexed
  cancel_update-Freed now meanwhile s indexed own =
      elim (Bool-cases (any (still_active i) (meanwhile s).deployments)) [
        | inl e ↦
            rw e (none_active now (meanwhile s).deployments own e (meanwhile s).deployments indexed)
        | inr e ↦ rw e (inr refl)
      ]

  after_check-Freed :
      (now : ℕ) (meanwhile : Store → Store) (s : Store)
      → is_indexed (meanwhile s).deployments ≡ true
      → all owns (meanwhile s).deployments ≡ true
      → (r : Reply (Unit {0}))
      → Freed s meanwhile (after_check r now i meanwhile s).0 (after_check r now i meanwhile s).1
  after_check-Freed now meanwhile s indexed own (ok u) =
      cancel_update-Freed now meanwhile s indexed own
  after_check-Freed now meanwhile s indexed own (http n) = inl refl

  -- A cancel that succeeds frees the project: whatever the other processes commit between the check and
  -- the write, as long as the table keeps its indexes and the row stays this project's production
  -- deployment, the project has no active production deployment afterwards, so the next deploy is not
  -- refused as one in progress. A cancel that fails has written nothing.
  pub cancel_deployment-Freed :
      (req : Request) (meanwhile : Store → Store) (s : Store)
      → is_indexed (meanwhile s).deployments ≡ true
      → all owns (meanwhile s).deployments ≡ true
      → Freed s meanwhile
          (cancel_deployment req p i meanwhile s).0
          (cancel_deployment req p i meanwhile s).1
  unfolding cancel_deployment
  cancel_deployment-Freed req meanwhile s ok_rows own =
      after_check-Freed req.now meanwhile s ok_rows own (cancel_check p i s)
