-- ===== src/Controller/Vanity/Follows.antt =====
-- The vanity route follows the live release, if what GitHub did is what the controller takes it to have done.
use ship_zen_gcp.Prelude.{
  ◌≡◌, refl, sym, ap, ◌∙◌, subst, Bool, true, false, List, [], ◌∷◌, Text, text_eq→eq, all, Option,
  none, some, ==_iff, Bool-cases, inl, inr, and_true, arith,
}
use ship_zen_gcp.Database.{RowId, same_id}
use ship_zen_gcp.Controller.Vanity.{
  Shown, shown, same_sub, is_synced, Route, RouteRound, route_file, second_commit, first_commit,
  sync_vanity_route,
}
use ship_zen_gcp.Controller.Vanity.Commits.{
  tells, works, Committed, commit-Committed, commit_works, works-tells,
}

same_sub_lem : (a b : Option Text) → same_sub a b ≡ true → a ≡ b
same_sub_lem none none h = refl
same_sub_lem none (some b) h = ground arith
same_sub_lem (some a) none h = ground arith
same_sub_lem (some a) (some b) h = ap some (text_eq→eq a b h)

same_id_lem : (a b : Option RowId) → same_id a b ≡ true → a ≡ b
unfolding same_id
same_id_lem none none h = refl
same_id_lem none (some b) h = ground arith
same_id_lem (some a) none h = ground arith
same_id_lem (some a) (some b) h = ap some ((==_iff a b).0 h)

same_shown : (y x : Shown) → is_synced (some y) x ≡ true → y ≡ x
same_shown (a, b) (c, d) h =
    let parts = and_true (same_sub a c) (same_id b d) h in
    rw (same_sub_lem a c parts.0, same_id_lem b d parts.1) refl

module _ (render_tenant : Option Text → Text) (render_route : Text → RowId → Text) where
  -- The file is the route of the state that is remembered.
  abbrev pub Settled : Option Shown → Option Text → Type 0
  Settled none file = Unit {0}
  Settled (some y) file = file ≡ route_file render_tenant render_route y

  Fits : Route → Type 0
  Fits w = Settled w.synced w.vanity

  second-Fits :
      (r : RouteRound) (x : Shown) (w : Route) (c : Bool × Option Text)
      → Fits w
      → Committed (route_file render_tenant render_route x) w.vanity c
      → Fits (second_commit render_tenant render_route r x w c)
  unfolding Fits
  second-Fits r x w (true, file) h k = subst (Settled w.synced) (sym k) h
  second-Fits r x w (false, file) h k = k

  first-Fits :
      (r : RouteRound) (x : Shown) (w : Route) (c : Bool × Option Text)
      → tells r.second ≡ true
      → Fits w
      → Fits (first_commit render_tenant render_route r x w c)
  unfolding Fits
  first-Fits r x w (true, file) t h = h
  first-Fits r x w (false, file) t h =
      second-Fits r x (record w { tenant = file }) _ h
        (commit-Committed r.second (route_file render_tenant render_route x) w.vanity t)

  sync-Fits :
      (r : RouteRound) (w : Route)
      → tells r.second ≡ true
      → Fits w
      → Fits (sync_vanity_route render_tenant render_route r w)
  unfolding sync_vanity_route
  sync-Fits r w t h = elim (Bool-cases (is_synced w.synced (shown r.project r.rows))) [
    | inl e ↦ simp e h
    | inr e ↦ simp e (first-Fits r (shown r.project r.rows) w _ t h)
  ]

  Settled-route :
      (o : Option Shown) (x : Shown) (file : Option Text)
      → is_synced o x ≡ true
      → Settled o file
      → file ≡ route_file render_tenant render_route x
  Settled-route none x file e h = ground arith
  Settled-route (some y) x file e h =
      h ∙ ap (route_file render_tenant render_route) (same_shown y x e)

  second_done :
      (r : RouteRound) (x : Shown) (w : Route) (content : Option Text) (c : Bool × Option Text)
      → c.0 ≡ false
      → Committed content w.vanity c
      → (second_commit render_tenant render_route r x w c).vanity ≡ content
  second_done r x w content (true, file) h k = ground arith
  second_done r x w content (false, file) h k = k

  first_done :
      (r : RouteRound) (x : Shown) (w : Route) (c : Bool × Option Text)
      → c.0 ≡ false
      → works r.second ≡ true
      → (first_commit render_tenant render_route r x w c).vanity
        ≡ route_file render_tenant render_route x
  first_done r x w (true, file) h k = ground arith
  first_done r x w (false, file) h k =
      second_done r x (record w { tenant = file }) (route_file render_tenant render_route x) _
        (commit_works r.second (route_file render_tenant render_route x) w.vanity k)
        (commit-Committed r.second (route_file render_tenant render_route x) w.vanity
          (works-tells r.second k))

  sync_done :
      (r : RouteRound) (w : Route)
      → works r.first ≡ true
      → works r.second ≡ true
      → Fits w
      → (sync_vanity_route render_tenant render_route r w).vanity
        ≡ route_file render_tenant render_route (shown r.project r.rows)
  unfolding sync_vanity_route Fits
  sync_done r w f s h = elim (Bool-cases (is_synced w.synced (shown r.project r.rows))) [
    | inl e ↦ simp e (Settled-route w.synced (shown r.project r.rows) w.vanity e h)
    | inr e ↦
        simp e (first_done r (shown r.project r.rows) w _ (commit_works r.first _ w.tenant f) s)
  ]

  -- The calls since the controller started, the latest first, from files that may be anything.
  abbrev pub after_rounds : List RouteRound → Option Text → Option Text → Route
  after_rounds [] t v = record { synced = none; tenant = t; vanity = v }
  after_rounds (r ∷ rs) t v = sync_vanity_route render_tenant render_route r (after_rounds rs t v)

  rounds-Fits :
      (rs : List RouteRound) (t v : Option Text)
      → all (λ r. tells r.second) rs ≡ true
      → Fits (after_rounds rs t v)
  unfolding Fits
  rounds-Fits [] t v h = tt
  rounds-Fits (r ∷ rs) t v h =
      sync-Fits r (after_rounds rs t v) (ground (arith, h)) (rounds-Fits rs t v (ground (arith, h)))

-- Whatever changed in the tables, after a call whose two commits work the file of the vanity route is that
-- of the project's valid vanity name and the release behind it, and is gone if there is none. In the
-- calls before, the second commit, if it came to it, had a token, GitHub did not refuse it with a status
-- (which is taken for a success), and its PUT or DELETE was not applied if it raised; anything in them
-- may have raised, and the first commits may have ended in any way.
pub sync_vanity_route-follows :
    (render_tenant : Option Text → Text) (render_route : Text → RowId → Text) (rs : List RouteRound)
    (t v : Option Text) (r : RouteRound)
    → all (λ q. tells q.second) rs ≡ true
    → works r.first ≡ true
    → works r.second ≡ true
    → (sync_vanity_route render_tenant render_route r
        (after_rounds render_tenant render_route rs t v)).vanity
      ≡ route_file render_tenant render_route (shown r.project r.rows)
sync_vanity_route-follows render_tenant render_route rs t v r h f s =
    sync_done render_tenant render_route r (after_rounds render_tenant render_route rs t v) f s
      (rounds-Fits render_tenant render_route rs t v h)
