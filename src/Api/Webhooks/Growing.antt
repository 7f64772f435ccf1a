-- ===== src/Api/Webhooks/Growing.antt =====
-- What a loop over projects adds: rows that pass a test, with a message for each, in order.
use ship_zen_gcp.Prelude.{
  ◌≡◌, refl, ap, ◌∙◌, Bool, true, List, [], ◌∷◌, ◌++◌, map, any, all, filter, Bool-cases, inl, inr,
  arith,
}
use mathlib.Core.List.{append-nil, append_assoc, map-append}
use ship_zen_gcp.Database.{Deployment, Project}
use ship_zen_gcp.Api.Store.{Store, queue_deployment}
use ship_zen_gcp.Api.Webhooks.{event_message}
use ship_zen_gcp.Api.Webhooks.Starting.{Started}

-- `after` has new rows that pass, and one message more for each of them, in their order; all else is as
-- in `s`.
abbrev pub Grown : (Deployment → Bool) → Store → Store → Type 0
Grown passes s after =
    (news : List Deployment) × (after ≡ record s {
      deployments = s.deployments ++ news;
      outbox = s.outbox ++ map event_message news;
    })
    × (all passes news ≡ true)

pub Grown-refl : (passes : Deployment → Bool) (s : Store) → Grown passes s s
Grown-refl passes s = ([], simp append-nil, refl)

all-snoc :
    (passes : Deployment → Bool) (ds : List Deployment) (d : Deployment)
    → all passes ds ≡ true
    → passes d ≡ true
    → all passes (ds ++ d ∷ []) ≡ true
all-snoc passes [] d h k = ground arith
all-snoc passes (e ∷ ds) d h k = ground (arith, all-snoc passes ds d)

pub Grown-Started :
    (passes : Deployment → Bool) (s t after : Store) (d : Deployment)
    → Grown passes s t
    → Started t d after
    → passes d ≡ true
    → Grown passes s after
unfolding queue_deployment
Grown-Started passes s t after d g started h =
    (g.0 ++ d ∷ [], started.0 ∙ ap add g.1 ∙ regrouped, all-snoc passes g.0 d g.2 h)
  where
    add : Store → Store
    add t = queue_deployment (event_message d) (record t { deployments = t.deployments ++ d ∷ [] })

    regrouped :
        add (record s {
          deployments = s.deployments ++ g.0;
          outbox = s.outbox ++ map event_message g.0;
        })
        ≡ record s {
          deployments = s.deployments ++ (g.0 ++ d ∷ []);
          outbox = s.outbox ++ map event_message (g.0 ++ d ∷ []);
        }
    regrouped = simp (append_assoc, map-append)

-- What a filter lets through passes with itself as the witness.
module _ (f : Project → Bool) (agree : Project → Project → Bool)
    (self : (q : Project) → f q ≡ true → agree q q ≡ true) where
  witnessed_later :
      (r : Project) (rs qs : List Project)
      → all (λ q. any (agree q) rs) qs ≡ true
      → all (λ q. any (agree q) (r ∷ rs)) qs ≡ true
  witnessed_later r rs [] h = refl
  witnessed_later r rs (q ∷ qs) h = ground (arith, witnessed_later r rs qs)

  pub all-filter-witnessed : (rs : List Project) → all (λ q. any (agree q) rs) (filter f rs) ≡ true
  all-filter-witnessed [] = refl
  all-filter-witnessed (r ∷ rs) = elim (Bool-cases (f r)) [
    | inl e ↦
        rw e
          (ground (arith, self r e, witnessed_later r rs (filter f rs) (all-filter-witnessed rs)))
    | inr e ↦ rw e (witnessed_later r rs (filter f rs) (all-filter-witnessed rs))
  ]
