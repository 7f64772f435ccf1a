-- ===== src/Examples/Rows.antt =====
-- A project with a live release, the one that replaces it, an older one and a preview.
use ship_zen_gcp.Prelude.{ℕ, true, false, [], ◌∷◌, none, some, codes, Option}
use ship_zen_gcp.Database.{
  running, State, Kind, production, preview, Deployment, ready, Project, Tables,
}
use ship_zen_gcp.Shared.Sizes
use ship_zen_gcp.Controller.Release.{Settings}
use ship_zen_gcp.Api.Store.{Store, Request}
use ship_zen_gcp.Api.Limits.{Limits}

abbrev pub row : ℕ → Kind → State → Option ℕ → ℕ → Deployment
row i k s n at = record {
  id = i;
  project = 1;
  state = s;
  kind = k;
  pr_number = none;
  repo_url = codes "https://github.com/acme/shop";
  branch = codes "main";
  image_uri = codes "eu/shop:1";
  image_digest = none;
  build_context = none;
  replicas = n;
  port = none;
  health_check_path = none;
  created_at = at;
  updated_at = at;
  scale_down_after = none;
  last_error = none;
}

abbrev pub old_live : Deployment
old_live = row 10 production running (some 2) 5

abbrev pub new_live : Deployment
new_live = row 11 production running (some 1) 6

abbrev pub stopped : Deployment
stopped = row 9 production running (some 0) 4

abbrev pub shop : Project
shop = record {
  id = 1;
  namespace = codes "shop-team";
  status = ready;
  name = codes "shop";
  subdomain = none;
  live_deployment_id = some 10;
  github_repo_id = none;
  github_repo_full_name = some (codes "acme/shop");
  repo_url = some (codes "https://github.com/acme/shop");
  branch = none;
  webhook_secret = none;
  owner_id = 5;
  deleted = false;
  instance_size = Sizes.known Sizes.medium;
  min_instances = some 1;
  max_instances = some 3;
}

abbrev pub tables : Tables
tables = record {
  projects = shop ∷ [];
  deployments = old_live ∷ new_live ∷ stopped ∷ row 12 preview running (some 1) 7 ∷ [];
}

abbrev pub settings : Settings
settings = record { grace = 15; keep_releases = 5 }

abbrev pub request : Request
request = record {
  user = 5;
  is_admin = false;
  now = 40;
  month_start = 30;
  fresh = 14;
  queried = true;
  committed = true;
}

abbrev pub limits : Limits
limits = record { active = 3; monthly = 300 }

abbrev pub empty_store : Store
empty_store = record {
  projects = [];
  deployments = [];
  members = [];
  users = [];
  freeze = false;
  outbox = [];
  stream = [];
}
