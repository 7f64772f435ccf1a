-- ===== src/Examples/Names.antt =====
-- Slugs, hostnames, repository configs and sizes at concrete inputs.
use ship_zen_gcp.Prelude.{
  ◌≡◌, ◌≢◌, ◌↔◌, refl, true, some, none, codes, arith, split, strip, lstrip, rstrip,
}
use ship_zen_gcp.Shared.Slug.{k8s_slug}
use ship_zen_gcp.Shared.Slug.Shape.{IsLabel, k8s_slug-IsLabel}
use ship_zen_gcp.Shared.Hostnames.{
  is_reserved, valid_vanity, vanity_problem, vanity_hostname, release_hostname,
}
use ship_zen_gcp.Shared.Hostnames.Vanity.{IsVanity, valid_vanity_iff}
use ship_zen_gcp.Shared.Hostnames.Collision.{vanity_hostname-ne-release_hostname}
use ship_zen_gcp.Shared.RepoConfig.{Config, Document, mapping, int, str, ok, parse_repo_config}
use ship_zen_gcp.Shared.RepoConfig.Laws.{IsSafe, parse_repo_config-IsSafe}
use ship_zen_gcp.Shared.Sizes.{medium, known, scaling_problem}

slug_runs : k8s_slug 40 (some (codes "  My App (v2)! ")) ≡ codes "my-app-v2"
unfolding k8s_slug strip lstrip rstrip
slug_runs = refl

k8s_slug-IsLabel_example : IsLabel (k8s_slug 40 (some (codes "My App")))
k8s_slug-IsLabel_example = k8s_slug-IsLabel 40 (some (codes "My App"))

valid_vanity_iff_example : (valid_vanity (some (codes "my-app")) ≡ true) ↔ IsVanity (codes "my-app")
valid_vanity_iff_example = valid_vanity_iff (codes "my-app")

my_app_valid : valid_vanity (some (codes "my-app")) ≡ true
unfolding valid_vanity vanity_problem is_reserved
my_app_valid = refl

vanity_hostname-ne-release_hostname_example :
    vanity_hostname (codes "my-app") ≢ release_hostname (codes "0a1b2c3d-4e5f") (codes "shop")
vanity_hostname-ne-release_hostname_example =
    vanity_hostname-ne-release_hostname (codes "my-app") (codes "0a1b2c3d-4e5f") (codes "shop")
      my_app_valid (omega arith)

abbrev shop_config : Document
shop_config = mapping (int 3000) (str (codes "/health")) (str (codes "apps/web/"))

abbrev shop_settings : Config
shop_settings = record {
  port = some 3000;
  health_check_path = some (codes "/health");
  build_context = some (codes "apps/web");
}

shop_parses : parse_repo_config shop_config ≡ ok shop_settings
unfolding parse_repo_config split strip lstrip rstrip
shop_parses = refl

parse_repo_config-IsSafe_example : IsSafe shop_settings
parse_repo_config-IsSafe_example = parse_repo_config-IsSafe shop_config shop_settings shop_parses

medium_accepted : scaling_problem (known medium) 1 3 ≡ none
unfolding scaling_problem
medium_accepted = refl
