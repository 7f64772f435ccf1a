-- ===== src/Controller/Vanity.antt =====
-- controller/main.py: `sync_vanity_route` and `commit_manifests_to_git`, for one project. What the
-- templates render is a parameter.
pub mod Commits
pub mod Follows
use ship_zen_gcp.Prelude.{
  Bool, true, false, not, ◌&&◌, ◌||◌, List, [], ◌∷◌, Text, text_eq, Option, none, some, filter, leb,
  ◌==◌, if◌then◌else◌,
}
use ship_zen_gcp.Database.{RowId, Deployment, Project, is_running, is_production, is_up, same_id}
use ship_zen_gcp.Shared.Hostnames.{valid_vanity, vanity_hostname}

-- What GitHub says to one commit: whether there is a token, how the look at the file ends, and how the
-- PUT or DELETE ends: it is served; refused with a status, which is at most logged; raises and was not applied; or
-- raises although it was applied (`lost`, a timeout of the answer). A look changes nothing.
pub data ApiAnswer : Type 0 where
  served refused raising lost : ApiAnswer

pub record GithubAnswers : Type 0 where
  pub token : Bool
  pub reading : ApiAnswer
  pub change : ApiAnswer

-- The rest of a commit once the file was looked at; whether it raises, and the file. A missing file is
-- not deleted, and an unchanged one not written.
abbrev is_unchanged : Option Text → Text → Bool
is_unchanged none c = false
is_unchanged (some f) c = text_eq f c

abbrev pub sent : ApiAnswer → Option Text → Option Text → Bool × Option Text
sent served content file = (false, content)
sent refused content file = (false, file)
sent raising content file = (true, file)
sent lost content file = (true, content)

abbrev pub change_file : ApiAnswer → Option Text → Option Text → Bool × Option Text
change_file a none none = (false, none)
change_file a none (some f) = sent a none (some f)
change_file a (some c) file = if is_unchanged file c then (false, file) else sent a (some c) file

abbrev pub looked : ApiAnswer → ApiAnswer → Option Text → Option Text → Bool × Option Text
looked served a content file = change_file a content file
looked refused a content file = (false, file)
looked raising a content file = (true, file)
looked lost a content file = (true, file)

-- `content` is `none` for `delete=True`.
unfoldable pub commit_manifests_to_git :
    GithubAnswers → Option Text → Option Text → Bool × Option Text
commit_manifests_to_git g content file =
    if g.token then looked g.reading g.change content file else (false, file)

-- `ORDER BY (deployment_id = live) DESC, created_at DESC`, among the running production releases that
-- are up.
abbrev pub may_be_shown : RowId → Deployment → Bool
may_be_shown p d = d.project == p && is_production d.kind && is_running d.state && is_up d.replicas

abbrev pub comes_first : Option RowId → Deployment → Deployment → Bool
comes_first live d e =
    if same_id (some d.id) live
    then not (same_id (some e.id) live) || leb e.created_at d.created_at
    else not (same_id (some e.id) live) && leb e.created_at d.created_at

abbrev pub better : Option RowId → Deployment → Option Deployment → Option Deployment
better live d none = some d
better live d (some e) = if comes_first live d e then some d else some e

abbrev pub best : Option RowId → List Deployment → Option Deployment
best live [] = none
best live (d ∷ ds) = better live d (best live ds)

abbrev pub release_id : Option Deployment → Option RowId
release_id none = none
release_id (some d) = some d.id

-- The state to show: the vanity name, if it is valid, and the release behind it.
abbrev pub Shown : Type 0
Shown = Option Text × Option RowId

abbrev pub with_live : Project → List Deployment → Option Text → Shown
with_live q rows none = (none, none)
with_live q rows (some sub) =
    (some sub, release_id (best q.live_deployment_id (filter (may_be_shown q.id) rows)))

unfoldable pub shown : Project → List Deployment → Shown
unfolding is_production is_running is_up same_id valid_vanity
shown q rows = with_live q rows (if valid_vanity q.subdomain then q.subdomain else none)

abbrev same_sub : Option Text → Option Text → Bool
same_sub none none = true
same_sub (some a) (some b) = text_eq a b
same_sub a b = false

abbrev pub is_synced : Option Shown → Shown → Bool
is_synced none x = false
is_synced (some y) x = same_sub y.0 x.0 && same_id y.1 x.1

-- The project's entry of `_vanity_synced`, and its two files.
pub record Route : Type 0 where
  pub synced : Option Shown
  pub tenant : Option Text
  pub vanity : Option Text

-- What one call meets: the project's row, the deployments, and GitHub's answers to the two commits.
pub record RouteRound : Type 0 where
  pub project : Project
  pub rows : List Deployment
  pub first : GithubAnswers
  pub second : GithubAnswers

-- The templates, for the project's namespace and name, which do not change: tenant.yaml with a label,
-- and vanity.yaml for a hostname.
module _ (render_tenant : Option Text → Text) (render_route : Text → RowId → Text) where
  abbrev pub route_file : Shown → Option Text
  route_file (some sub, some live) = some (render_route (vanity_hostname sub) live)
  route_file x = none

  abbrev pub second_commit : RouteRound → Shown → Route → Bool × Option Text → Route
  second_commit r x w (true, file) = record w { vanity = file }
  second_commit r x w (false, file) = record w { vanity = file; synced = some x }

  abbrev pub first_commit : RouteRound → Shown → Route → Bool × Option Text → Route
  first_commit r x w (true, file) = record w { tenant = file }
  first_commit r x w (false, file) =
      second_commit r x (record w { tenant = file })
        (commit_manifests_to_git r.second (route_file x) w.vanity)

  unfoldable pub sync_vanity_route : RouteRound → Route → Route
  unfolding same_id commit_manifests_to_git vanity_hostname
  sync_vanity_route r w =
      let x = shown r.project r.rows in
      if is_synced w.synced x
      then w
      else first_commit r x w (commit_manifests_to_git r.first (some (render_tenant x.0)) w.tenant)
