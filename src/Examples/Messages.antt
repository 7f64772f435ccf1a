-- ===== src/Examples/Messages.antt =====
-- A deploy message whose build succeeds.
use ship_zen_gcp.Prelude.{◌≡◌, refl, true, false, [], ◌∷◌, none, some, codes}
use ship_zen_gcp.Database.{queued, production}
use ship_zen_gcp.Worker.World.{Message, World}
use ship_zen_gcp.Worker.World.Rules.{Holds}
use ship_zen_gcp.Worker.Monitor.{Run, active, succeeded}
use ship_zen_gcp.Worker.Stages.{Env, created, absent}
use ship_zen_gcp.Worker.Process.{process_message, lacks_fields, branch_ok}
use ship_zen_gcp.Worker.Process.Rows.{Row, anything}
use ship_zen_gcp.Worker.Process.Outcomes.{is_finished}
use ship_zen_gcp.Worker.Process.Finishing.{finished-process_message}
use ship_zen_gcp.Worker.Process.Returning.{process_message-returns}
use ship_zen_gcp.Worker.Process.Settling.{acked-process_message}
use ship_zen_gcp.Examples.Rows.{row, shop}

abbrev env : Env
env = record {
  github_token = true;
  git_secret = created;
  clone = true;
  sparse = true;
  config = absent;
  fetch = true;
  package_json = true;
  has_dockerfile = λ f. false;
  push_token = true;
  push_secret = created;
  job = created;
  fix_job = created;
  log_bucket = true;
  deletes = true;
}

abbrev good_run : Run
good_run = record {
  pod_appears = true;
  polls = active ∷ succeeded ∷ [];
  reported = some (codes "sha256:0123456789abcdef0123456789abcdef0123456789abcdef0123456789abcdef");
  login = true;
  copied = true;
  exposed = some 3000;
  classified = none;
}

abbrev message : Message
message = record {
  id = 500;
  deployment_id = some 13;
  project_id = some 1;
  repo_url = codes "https://github.com/acme/shop";
  branch = codes "main";
  image_name = codes "eu/shop:1";
  is_rollback = false;
  build_context = none;
}

abbrev world : World
world = record {
  deployments = row 13 production queued (some 1) 8 ∷ [];
  projects = shop ∷ [];
  acked = [];
  dlq = [];
  secrets = [];
  held = [];
  jobs = [];
  builds = [];
  notes = [];
  workspaces = [];
  faults = [];
  now = 30;
}

acked-process_message_example :
    Holds
      (λ _ after. after.acked ≡ 500 ∷ [])
      (λ after. after.acked ≡ [])
      (process_message env good_run good_run message world).0
      (process_message env good_run good_run message world).1
acked-process_message_example = acked-process_message env good_run good_run message world

process_message-returns_example :
    Holds
      (λ _ after. after.acked ≡ 500 ∷ [])
      (λ _. ⊥)
      (process_message env good_run good_run message world).0
      (process_message env good_run good_run message world).1
process_message-returns_example =
    process_message-returns env good_run good_run message world refl refl

complete : lacks_fields message ≡ false
unfolding branch_ok
complete = refl

finished-process_message_example :
    Holds
      (λ _. Row is_finished 13)
      (Row anything 13)
      (process_message env good_run good_run message world).0
      (process_message env good_run good_run message world).1
finished-process_message_example =
    finished-process_message env good_run good_run message world 13 refl complete refl refl
