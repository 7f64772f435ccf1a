-- ===== src/Api/Webhooks/Starting.antt =====
-- What a transaction that starts a deployment leaves: a row and its message, or nothing.
use ship_zen_gcp.Prelude.{◌≡◌, refl, Bool, true, false, [], ◌∷◌, ◌++◌, Option, none, some}
use ship_zen_gcp.Database.{Deployment}
use ship_zen_gcp.Database.Index.{clashes, insert}
use ship_zen_gcp.Api.Store.{Store, queue_deployment}
use ship_zen_gcp.Api.Create.Atomic.{insert-cases}
use ship_zen_gcp.Api.Webhooks.{event_message, inserted, start_deployment}

-- One row more, its message at the end of the outbox, no active rival; all else as before.
abbrev pub Started : Store → Deployment → Store → Type 0
Started s d after =
    (after
      ≡ queue_deployment (event_message d) (record s { deployments = s.deployments ++ d ∷ [] }))
    × (clashes d s.deployments ≡ false)

abbrev OnStart : Store → Deployment → Option Store → Type 0
OnStart s d none = Unit
OnStart s d (some after) = Started s d after

committed-Started :
    (b : Bool) (d : Deployment) (s : Store)
    → clashes d s.deployments ≡ false
    → OnStart s d (inserted b d (some (s.deployments ++ d ∷ [])) s)
committed-Started true d s free = (refl, free)
committed-Started false d s free = tt

-- Split on the outcome of the transaction.
pub by_start :
    (P : Option Store → Type 0) (b : Bool) (d : Deployment) (s : Store)
    → P none
    → ((after : Store) → Started s d after → P (some after))
    → P (start_deployment b d s)
unfolding start_deployment
by_start P b d s bad good = outcome (inserted b d (insert d s.deployments) s) (
    insert-cases (λ o. OnStart s d (inserted b d o s)) d s.deployments tt (committed-Started b d s))
  where
    outcome : (o : Option Store) → OnStart s d o → P o
    outcome none h = bad
    outcome (some after) h = good after h
