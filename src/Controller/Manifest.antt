-- ===== src/Controller/Manifest.antt =====
-- controller/main.py: what the manifest of a release says (`pinned_image`, `_safe_port`,
-- `_safe_health_path` and the arguments of the template).
use ship_zen_gcp.Prelude.{ℕ, [], ◌∷◌, ◌++◌, Text, Option, none, some, codes, if◌then◌else◌}
use ship_zen_gcp.Database.{RowId, Deployment, Project}
use ship_zen_gcp.Shared.RepoConfig.{
  int, str, valid_port, valid_health_check_path, valid_image_digest,
}
use ship_zen_gcp.Shared.Slug.{k8s_slug}
use ship_zen_gcp.Controller.Scaling.{Scaling, release_scaling}

abbrev or_nginx : Text → Text
or_nginx [] = codes "nginx:latest"
or_nginx (c ∷ cs) = c ∷ cs

abbrev pin : Text → Option Text → Text
pin image none = image
pin image (some g) = if valid_image_digest (str g) then image ++ codes "@" ++ g else image

unfoldable pub pinned_image : Deployment → Text
pinned_image d = pin (or_nginx d.image_uri) d.image_digest

unfoldable pub safe_port : Option ℕ → ℕ
safe_port none = 8080
safe_port (some n) = if valid_port (int n) then n else 8080

unfoldable pub safe_health_path : Option Text → Text
safe_health_path none = codes "/"
safe_health_path (some h) = if valid_health_check_path (str h) then h else codes "/"

-- What the manifest of a release is rendered from.
pub record Manifest : Type 0 where
  pub deployment : RowId
  pub project_name : Text
  pub image : Text
  pub port : ℕ
  pub health_check_path : Text
  pub scaling : Scaling

unfoldable pub manifest_of : Project → Deployment → Manifest
unfolding pinned_image safe_port safe_health_path release_scaling
manifest_of q d = record {
  deployment = d.id;
  project_name = k8s_slug 40 (some q.name);
  image = pinned_image d;
  port = safe_port d.port;
  health_check_path = safe_health_path d.health_check_path;
  scaling = release_scaling q d;
}
