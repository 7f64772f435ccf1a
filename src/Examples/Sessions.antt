-- ===== src/Examples/Sessions.antt =====
-- Sign-ins, migrations, sockets, pages and vanity routes at concrete values.
use ship_zen_gcp.Prelude.{
  ◌≡◌, refl, Bool, true, false, not, ◌&&◌, List, [], ◌∷◌, ◌++◌, Option, some, none, codes, Text,
  text_eq, leb, ℕ, zero, suc, length, any, take, ◌==◌, arith,
}
use ship_zen_gcp.Api.Sockets.{
  read, received, checked, subscribed, ended, Happening, ticket_made, socket_accepted, went_on,
  state_after,
}
use ship_zen_gcp.Api.Sockets.Capped.{IsCounted, state_after-IsCounted}
use ship_zen_gcp.Database.{RowId}
use ship_zen_gcp.Controller.Vanity.{
  GithubAnswers, served, raising, RouteRound, shown, route_file, sync_vanity_route,
}
use ship_zen_gcp.Controller.Vanity.Follows.{after_rounds, sync_vanity_route-follows}
use ship_zen_gcp.Api.Migrate.{Run, migration_files, apply_migrations}
use ship_zen_gcp.Api.Migrate.Once.{
  are_distinct, after_runs, IsBuilt, Complete, apply_migrations-Once,
}
use ship_zen_gcp.Api.Store.{ok, Store, Request}
use ship_zen_gcp.Api.Access.{check_project_access, find_project}
use ship_zen_gcp.Api.Pages.{RowKey}
use ship_zen_gcp.Api.Pages.Walk.{walk, rows, walk-rows}
use ship_zen_gcp.Examples.Rows.{shop, old_live, new_live, stopped, request, empty_store}
use ship_zen_gcp.Api.Auth.{Caller, Policy, unreachable, user, Call, get_current_user}
use ship_zen_gcp.Api.Auth.Vouched.{called, run, play, Vouched, get_current_user-Vouched}

abbrev invite_only : Policy
invite_only = record {
  stub_enabled = false;
  github_enabled = true;
  allowlist = codes "ada" ∷ [];
  open_signup = false;
}

abbrev first_call : Call
first_call = record {
  token = some (codes "gho");
  now = 100;
  answer = user (record { id = 7; login = codes "ada" });
  account = some (false, false);
  drops = λ e. false;
}

abbrev second_call : Call
second_call = record first_call { now = 130; answer = unreachable }

abbrev ada : Caller
ada = record { id = 7; is_admin = false; suspended = false }

from_cache_works :
    (get_current_user invite_only second_call (run invite_only (called first_call ∷ []))).0 ≡ ok ada
unfolding get_current_user run play
from_cache_works = refl

get_current_user-Vouched_example :
    (ada.suspended ≡ false) × Vouched invite_only (called first_call ∷ []) second_call ada
get_current_user-Vouched_example =
    get_current_user-Vouched invite_only (called first_call ∷ []) second_call ada from_cache_works

abbrev is_digit : ℕ → Bool
is_digit c = leb 48 c && leb c 57

abbrev names : List Text
names = codes "0002_users.sql" ∷ codes "README.md" ∷ codes "0001_baseline.sql" ∷ []

-- A database that is the list of what was executed.
abbrev log : Text → List Text → Option (List Text)
log v d = some (d ++ v ∷ [])

abbrev stops_at_second : Run
stops_at_second = record {
  opens = true;
  reads = λ v. true;
  commits = λ v. not (text_eq v (codes "0002_users"));
}

abbrev succeeds : Run
succeeds = record { opens = true; reads = λ v. true; commits = λ v. true }

names_distinct : are_distinct (migration_files is_digit names) ≡ true
unfolding migration_files
names_distinct = refl

apply_migrations-Once_example :
    let files = migration_files is_digit names in
    let s = after_runs log files [] (stops_at_second ∷ []) in
    let x = apply_migrations log files succeeds s in
    IsBuilt log files [] x.1 × Complete log files [] s x.0 x.1
apply_migrations-Once_example =
    apply_migrations-Once log is_digit names [] (stops_at_second ∷ []) succeeds names_distinct

abbrev story : List Happening
story =
    went_on 0 ended
    ∷ went_on 0 (subscribed true)
    ∷ went_on 0 (checked true)
    ∷ went_on 0 (received 110 (read (some (codes "t1")) none))
    ∷ socket_accepted
    ∷ ticket_made (codes "t1") ada 100
    ∷ []

state_after-IsCounted_example : IsCounted 10 7 (state_after 10 (λ t. none) story)
state_after-IsCounted_example = state_after-IsCounted 10 (λ t. none) 7 story

-- Numbers are shown as that many letters.
abbrev letters : ℕ → Text
letters zero = []
letters (suc n) = b'a' ∷ letters n

length-letters : (n : ℕ) → length (letters n) ≡ n
length-letters zero = refl
length-letters (suc n) = omega (arith, length-letters n)

no_bars : (n : ℕ) → any (λ c. c == b'|') (letters n) ≡ false
no_bars zero = refl
no_bars (suc n) = no_bars n

abbrev measured : Text → Text → Option RowKey
measured a b = some (length a, length b)

measured-letters : (t i : ℕ) → measured (letters t) (letters i) ≡ some (t, i)
measured-letters t i = rw (length-letters t, length-letters i) refl

abbrev listed : Store
listed = record empty_store {
  projects = shop ∷ [];
  deployments = new_live ∷ old_live ∷ stopped ∷ [];
}

abbrev by_admin : Request
by_admin = record request { is_admin = true }

admin_granted : check_project_access false by_admin 1 listed ≡ ok shop
unfolding check_project_access find_project
admin_granted = refl

walk-rows_example :
    walk measured letters letters measured-letters no_bars by_admin 1 2 listed 2 none
    ≡ ok (take 4 (rows measured letters letters measured-letters no_bars by_admin 1 2 listed))
walk-rows_example =
    walk-rows measured letters letters measured-letters no_bars by_admin 1 2 listed shop
      admin_granted refl 2 refl

abbrev willing : GithubAnswers
willing = record { token = true; reading = served; change = served }

abbrev first_round : RouteRound
first_round = record {
  project = record shop { subdomain = some (codes "my-app") };
  rows = old_live ∷ new_live ∷ [];
  first = willing;
  second = record willing { change = raising };
}

abbrev second_round : RouteRound
second_round = record first_round { rows = new_live ∷ []; second = willing }

abbrev tenant_text : Option Text → Text
tenant_text none = []
tenant_text (some l) = l

abbrev route_text : Text → RowId → Text
route_text h i = i ∷ h

sync_vanity_route-follows_example :
    (sync_vanity_route tenant_text route_text second_round
      (after_rounds tenant_text route_text (first_round ∷ []) none none)).vanity
    ≡ route_file tenant_text route_text (shown second_round.project second_round.rows)
sync_vanity_route-follows_example =
    sync_vanity_route-follows tenant_text route_text (first_round ∷ []) none none second_round refl
      refl refl
