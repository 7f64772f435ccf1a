-- ===== src/Examples/Requests.antt =====
-- Requests to the API and rounds of the relay at concrete tables.
use ship_zen_gcp.Prelude.{
  ℕ, List, length, ◌-◌, ◌+◌, ◌≤◌, ◌≡◌, refl, true, false, [], ◌∷◌, ◌++◌, Option, none, some, codes,
  all, arith,
}
use ship_zen_gcp.Database.{
  queued, production, Deployment, in_flight, is_up, is_production, is_running, same_id,
}
use ship_zen_gcp.Database.Index.{clashes, same_key}
use ship_zen_gcp.Database.Index.Unique.{is_indexed}
use ship_zen_gcp.Database.Statements.{newest_first}
use ship_zen_gcp.Controller.Release.{is_release}
use ship_zen_gcp.Api.Store.{Store, owner, Payload, Reply, ok}
use ship_zen_gcp.Api.Access.{check_project_access}
use ship_zen_gcp.Api.Access.Decided.{Decided, check_project_access-Decided}
use ship_zen_gcp.Api.Accounts.{
  Account, env, Admitted, get_or_create_user, get_or_create_user-Admitted,
}
use ship_zen_gcp.Api.Create.{Body, Repo, create_deployment}
use ship_zen_gcp.Api.Create.Atomic.{Atomic, create_deployment-Atomic}
use ship_zen_gcp.Api.Create.Bounds.{Within, create_deployment-Within}
use ship_zen_gcp.Api.Cancel.{cancel_deployment}
use ship_zen_gcp.Api.Cancel.Freed.{Freed, owns, cancel_deployment-Freed}
use ship_zen_gcp.Api.Rollback.{
  live_release, last_good, rollback_deployment, is_up_release, is_candidate, differs,
}
use ship_zen_gcp.Api.Rollback.Target.{qualifies, Newest, last_good-Newest}
use ship_zen_gcp.Api.Rollback.Queued.{Outcome, rollback_deployment-Outcome}
use ship_zen_gcp.Api.Relay.{Round, moved, added, failed, relay_outbox_once, rounds}
use ship_zen_gcp.Api.Relay.Delivery.{total, total-relay_outbox_once, rounds-deliver}
use ship_zen_gcp.Examples.Rows.{row, shop, old_live, new_live, request, limits}

abbrev next : Deployment
next = record new_live { image_uri = codes "eu/shop:2" }

abbrev message : Payload
message = record {
  deployment_id = 13;
  project_id = 1;
  repo_url = codes "https://github.com/acme/shop";
  branch = codes "main";
  image_name = codes "eu/shop:3";
  build_context = [];
  is_rollback = false;
}

abbrev store : Store
store = record {
  projects = record shop { live_deployment_id = some 11 } ∷ [];
  deployments = old_live ∷ next ∷ [];
  members = record { project = 1; user = 5; role = owner } ∷ [];
  users = record { id = 5; email = some (codes "ann@acme.example"); suspended = false } ∷ [];
  freeze = false;
  outbox = message ∷ [];
  stream = [];
}

abbrev body : Body
body = record {
  repo_url = codes "https://github.com/acme/shop";
  port = some 3000;
  branch = codes "main";
  build_context = none;
}

abbrev repo : Reply (Option Repo)
repo = ok (some (record { id = 900; full_name = codes "acme/shop" }))

check_project_access-Decided_example :
    Decided true request 1 store (check_project_access true request 1 store)
check_project_access-Decided_example = check_project_access-Decided true request 1 store

create_deployment-Atomic_example :
    Atomic store
      (create_deployment limits request shop repo 1 body (codes "eu/shop:3") store).0
      (create_deployment limits request shop repo 1 body (codes "eu/shop:3") store).1
create_deployment-Atomic_example =
    create_deployment-Atomic limits request shop repo 1 body (codes "eu/shop:3") store

create_deployment-Within_example :
    Within limits request 1 store
      (create_deployment limits request shop repo 1 body (codes "eu/shop:3") store).0
      (create_deployment limits request shop repo 1 body (codes "eu/shop:3") store).1
create_deployment-Within_example =
    create_deployment-Within limits request 1 store shop repo body (codes "eu/shop:3")

abbrev busy : Store
busy = record store { deployments = old_live ∷ row 13 production queued (some 1) 8 ∷ [] }

busy_indexed : is_indexed busy.deployments ≡ true
unfolding is_indexed clashes in_flight same_key
busy_indexed = refl

busy_owned : all (owns 13 1) busy.deployments ≡ true
unfolding is_production
busy_owned = refl

cancel_deployment-Freed_example :
    Freed 13 1 busy
      (λ s. s)
      (cancel_deployment request 1 13 (λ s. s) busy).0
      (cancel_deployment request 1 13 (λ s. s) busy).1
cancel_deployment-Freed_example =
    cancel_deployment-Freed 13 1 request (λ s. s) busy busy_indexed busy_owned

last_good-Newest_example :
    Newest (qualifies 1 (some next)) (last_good 1 (some next) store.deployments) store.deployments
last_good-Newest_example = last_good-Newest 1 (some next) store.deployments

abbrev cold : Store
cold = record store { deployments = record old_live { replicas = some 0 } ∷ next ∷ [] }

cold_live : live_release 1 (some 11) cold.deployments ≡ some next
unfolding live_release is_up_release is_release is_production is_running is_up same_id newest_first
cold_live = refl

cold_good : last_good 1 (some next) cold.deployments ≡ some (record old_live { replicas = some 0 })
unfolding last_good is_candidate is_release is_production is_running differs newest_first
cold_good = refl

rollback_deployment-Outcome_example :
    Outcome request 15 1
      (some next)
      cold
      (record old_live { replicas = some 0 })
      (rollback_deployment request 15 1 (some 11) cold).0
      (rollback_deployment request 15 1 (some 11) cold).1
rollback_deployment-Outcome_example =
    rollback_deployment-Outcome request 15 1 (some next) cold (some 11)
      (record old_live { replicas = some 0 }) cold_live cold_good

total-relay_outbox_once_example :
    (total (λ p. p.is_rollback) store
      ≤ total (λ p. p.is_rollback) (relay_outbox_once added (true ∷ []) (3 ∷ []) store)
        + ((length store.stream + 10) - 10000))
    × (total (λ p. p.is_rollback) (relay_outbox_once moved (true ∷ []) (3 ∷ []) store)
        ≤ total (λ p. p.is_rollback) store)
total-relay_outbox_once_example =
    total-relay_outbox_once (λ p. p.is_rollback) added (true ∷ []) (3 ∷ []) store

abbrev served_rounds : List (Round × List ℕ)
served_rounds = (failed, []) ∷ (moved, 3 ∷ []) ∷ []

rounds-deliver_example :
    ((rounds served_rounds store).outbox ≡ [])
    × ((rounds served_rounds store).stream ≡ store.stream ++ store.outbox)
rounds-deliver_example = rounds-deliver served_rounds store (omega arith) refl (omega arith)

abbrev demoted : Account
demoted = record { id = 5; is_admin = true; admin_source = some env; suspended = false }

get_or_create_user-Admitted_example :
    Admitted 5 false
      (some demoted)
      (get_or_create_user 5 false (demoted ∷ [])).0
      (get_or_create_user 5 false (demoted ∷ [])).1
get_or_create_user-Admitted_example = get_or_create_user-Admitted 5 false (demoted ∷ [])
