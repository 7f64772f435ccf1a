-- ===== src/Api/Auth.antt =====
-- api/auth.py: who a token is, with the cache of tokens and the circuit breaker in front of GitHub, in
-- one process of the API. A call is one step: what happens while it waits for GitHub is not modelled.
-- Tokens stand for their SHA-256 hashes.
pub mod Claims
pub mod Vouched
use ship_zen_gcp.Prelude.{
  ℕ, ◌+◌, ◌-◌, ◌≡◌, Bool, true, false, not, ◌&&◌, ◌||◌, List, [], ◌∷◌, Text, text_eq, Option, none,
  some, any, find?, filter, ltb, leb, ◌==◌, if◌then◌else◌, codes, is_some,
}
use ship_zen_gcp.Database.{RowId}
use ship_zen_gcp.Api.Store.{Reply, ok, http}

-- `User`
pub record Caller : Type 0 where
  pub id : RowId
  pub is_admin : Bool
  pub suspended : Bool

-- An entry of `_token_cache`, with the time at which it was put there.
pub record Entry : Type 0 where
  pub token : Text
  pub caller : Caller
  pub since : ℕ

-- The state of the module: the cache, `_user_to_cache_keys`, and the breaker.
pub record Auth : Type 0 where
  pub cache : List Entry
  pub keys : List (RowId × Text)
  pub failures : ℕ
  pub last_failure : ℕ
  pub is_open : Bool

-- The environment's settings.
pub record Policy : Type 0 where
  pub stub_enabled : Bool
  pub github_enabled : Bool
  pub allowlist : List Text
  pub open_signup : Bool

pub record Identity : Type 0 where
  pub id : RowId
  pub login : Text

-- What GitHub answers about the token: an error of the network, a status other than 200 (with the rate
-- limit used up or not), or a user.
pub data Github : Type 0 where
  unreachable : Github
  status : ℕ → Bool → Github
  user : Identity → Github

-- One call: the token, if there is one, the time, GitHub's answer, what `get_or_create_user` returns
-- for the user (`none` is an exception), and which entries the cache drops to make room.
pub record Call : Type 0 where
  pub token : Option Text
  pub now : ℕ
  pub answer : Github
  pub account : Option (Bool × Bool)
  pub drops : Entry → Bool

-- `TTLCache(ttl=60)`
abbrev pub is_unexpired : ℕ → Text → Entry → Bool
is_unexpired now t e = text_eq e.token t && ltb now (e.since + 60)

unfoldable pub cached : ℕ → Text → List Entry → Option Entry
cached now t es = find? (is_unexpired now t) es

-- `_refuse_suspended`
abbrev pub refuse_suspended : Caller → Reply Caller
refuse_suspended u = if u.suspended then http 403 else ok u

abbrev is_given : List Text → Bool
is_given [] = false
is_given (l ∷ ls) = true

-- The login must be on the list, unless the list is empty and everybody may sign up. Logins are
-- compared in lower case.
unfoldable pub may_sign_in : Policy → Identity → Bool
may_sign_in pol i =
    not (is_given pol.allowlist || not pol.open_signup) || any (text_eq i.login) pol.allowlist

-- The end of a sign-in: the user of the database is cached, and let in unless suspended.
abbrev pub caller_of : RowId → Bool × Bool → Caller
caller_of i (is_admin, suspended) = record { id = i; is_admin = is_admin; suspended = suspended }

unfoldable pub remember : Call → Text → Caller → Auth → Auth
remember c t u a = record a {
  cache =
      record { token = t; caller = u; since = c.now }
      ∷ filter (λ e. not (c.drops e) && not (text_eq e.token t)) a.cache;
  keys = (u.id, t) ∷ a.keys;
}

abbrev pub sign_in_as : Call → Text → RowId → Option (Bool × Bool) → Auth → Reply Caller × Auth
sign_in_as c t i none a = (http 500, a)
sign_in_as c t i (some account) a =
    (refuse_suspended (caller_of i account), remember c t (caller_of i account) a)

-- The status that is answered for a status of GitHub.
abbrev pub github_problem : ℕ → Bool → ℕ
github_problem n used_up = if n == 401 then 401 else 503

-- An error of the network counts, and the fifth opens the breaker.
unfoldable pub count_failure : ℕ → Auth → Auth
count_failure now a = record a {
  failures = a.failures + 1;
  last_failure = now;
  is_open = if leb 5 (a.failures + 1) then true else a.is_open;
}

abbrev pub reset : Auth → Auth
reset a = record a { failures = 0; last_failure = 0; is_open = false }

-- Asking GitHub. A refused login leaves the breaker as it is.
abbrev pub ask : Policy → Call → Text → Github → Auth → Reply Caller × Auth
ask pol c t unreachable a = (http 503, count_failure c.now a)
ask pol c t (status n used_up) a = (http (github_problem n used_up), a)
ask pol c t (user i) a =
    if may_sign_in pol i then sign_in_as c t i.id c.account (reset a) else (http 403, a)

-- An open breaker lets nothing through for 30 seconds, and then one request to test.
abbrev pub through_breaker : Policy → Call → Text → Auth → Reply Caller × Auth
through_breaker pol c t a =
    if a.is_open && ltb (c.now - a.last_failure) 30
    then (http 503, a)
    else ask pol c t c.answer (record a { is_open = false })

abbrev pub from_cache : Policy → Call → Text → Option Entry → Auth → Reply Caller × Auth
from_cache pol c t none a = through_breaker pol c t a
from_cache pol c t (some e) a = (refuse_suspended e.caller, a)

-- The id that stands for "local-dev-user".
abbrev pub stub_user : RowId
stub_user = 0

abbrev pub with_token : Policy → Call → Text → Auth → Reply Caller × Auth
with_token pol c t a =
    if text_eq t (codes "stub-token")
    then (if pol.stub_enabled then sign_in_as c t stub_user c.account a else (http 401, a))
    else if pol.github_enabled
    then from_cache pol c t (cached c.now t a.cache) a
    else (http 503, a)

abbrev pub with_credentials : Policy → Call → Option Text → Auth → Reply Caller × Auth
with_credentials pol c none a = (http 401, a)
with_credentials pol c (some t) a = with_token pol c t a

unfoldable pub get_current_user : Policy → Call → Auth → Reply Caller × Auth
unfolding cached may_sign_in remember count_failure
get_current_user pol c a = with_credentials pol c c.token a

-- `evict_user_token_cache`: the entries under the user's keys, and any other of the user.
abbrev pub has_key : RowId → Text → RowId × Text → Bool
has_key u t (v, k) = v == u && text_eq k t

unfoldable pub evict_user_token_cache : RowId → Auth → Auth
evict_user_token_cache u a = record a {
  cache = filter (λ e. not (any (has_key u e.token) a.keys) && not (e.caller.id == u)) a.cache;
  keys = filter (λ k. not (k.0 == u)) a.keys;
}
