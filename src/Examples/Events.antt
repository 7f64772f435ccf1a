-- ===== src/Examples/Events.antt =====
-- Webhook events at concrete tables.
use ship_zen_gcp.Prelude.{◌≡◌, true, [], ◌∷◌, ◌++◌, none, some, codes, arith, ◌⊎◌}
use ship_zen_gcp.Database.{
  RowId, queued, running, preview, Project, in_flight, is_running, is_production,
}
use ship_zen_gcp.Api.Store.{Store}
use ship_zen_gcp.Api.Webhooks.{PushEvent, Delivery, Hmac}
use ship_zen_gcp.Api.Webhooks.Push.{github_webhook}
use ship_zen_gcp.Api.Webhooks.Push.Signed.{Outcome, github_webhook-Outcome}
use ship_zen_gcp.Api.Webhooks.App.{Turn, push}
use ship_zen_gcp.Api.Webhooks.Previews.{
  opened, PullRequest, holds_preview, numbers, count_distinct, handle_pull_request,
  github_app_webhook,
}
use ship_zen_gcp.Api.Webhooks.Previews.Capped.{Capped, handle_pull_request-Capped}
use ship_zen_gcp.Api.Webhooks.Previews.Events.{Verified, Left, github_app_webhook-Left}
use ship_zen_gcp.Examples.Rows.{row, shop, new_live, request, limits, empty_store}

abbrev bound : Project
bound = record shop { github_repo_id = some 900; webhook_secret = some (codes "s3cret") }

-- One release and the previews of two pull requests.
abbrev busy : Store
busy = record empty_store {
  projects = bound ∷ [];
  deployments =
      new_live
      ∷ record (row 21 preview running (some 1) 7) { pr_number = some 4 }
      ∷ record (row 22 preview queued (some 1) 8) { pr_number = some 5 }
      ∷ [];
}

abbrev hmac : Hmac
hmac secret body = secret ++ body

abbrev event : PushEvent
event = record {
  ref = codes "refs/heads/main";
  repository_id = some 900;
  clone_url = some (codes "https://github.com/acme/shop");
  html_url = none;
}

abbrev delivery : Delivery
delivery = record { signature = some (codes "sha256=s3cret{}"); body = codes "{}" }

github_webhook-Outcome_example :
    Outcome hmac some
      (λ _. some event)
      1
      delivery
      busy
      (github_webhook limits hmac some
        (λ _. some event)
        request
        1
        (codes "eu/shop:4")
        true
        delivery
        busy).0
      (github_webhook limits hmac some
        (λ _. some event)
        request
        1
        (codes "eu/shop:4")
        true
        delivery
        busy).1
github_webhook-Outcome_example =
    github_webhook-Outcome hmac some (λ _. some event) 1 delivery busy limits request
      (codes "eu/shop:4") true

abbrev pull : PullRequest
pull = record {
  action = opened;
  number = some 6;
  base_repo = some 900;
  head_repo = some 900;
  sha = some (codes "0a1b");
  ref = some (codes "menu");
}

abbrev turn : RowId → Turn
turn p = record { request = request; port_read = true; image = codes "eu/shop:4" }

github_app_webhook-Left_example :
    ((github_app_webhook limits hmac
        (some (codes "s3cret"))
        (λ _. some event)
        (λ _. some pull)
        turn
        request
        push
        delivery
        busy).1
      ≡ busy)
    ⊎ Verified limits hmac (some (codes "s3cret")) turn request delivery busy
      × Left limits hmac
          (some (codes "s3cret"))
          turn
          request
          delivery
          busy
          push
          (some event)
          (some pull)
          (github_app_webhook limits hmac
            (some (codes "s3cret"))
            (λ _. some event)
            (λ _. some pull)
            turn
            request
            push
            delivery
            busy).1
github_app_webhook-Left_example =
    github_app_webhook-Left limits hmac (some (codes "s3cret")) turn request delivery busy
      (λ _. some event) (λ _. some pull) push

busy-Capped : Capped 1 busy.deployments
unfolding numbers count_distinct holds_preview in_flight is_running is_production
busy-Capped = omega arith

handle_pull_request-Capped_example :
    Capped 1 (handle_pull_request limits turn request pull busy).1.deployments
handle_pull_request-Capped_example =
    handle_pull_request-Capped 1 limits turn request pull busy busy-Capped
