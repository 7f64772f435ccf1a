-- ===== src/Shared/Hostnames.antt =====
-- shipzen_common/hostnames.py: the names of a project's stable address, and the two kinds of
-- hostname. A release's hostname is put together in controller/main.py (`preview_url`).
pub mod Collision
pub mod Vanity
use ship_zen_gcp.Prelude.{
  ℕ, suc, ◌+◌, Bool, true, false, not, ◌&&◌, ◌||◌, List, [], ◌∷◌, ◌++◌, Text, Option, none, some,
  codes, text_eq, any, take, get_elem?, is_lower, is_lower_alnum, ltb, leb, ◌==◌, if◌then◌else◌,
}

-- What `vanity_problem` complains about.
pub data Problem : Type 0 where
  bad_shape reserved release_shape : Problem

-- `(?:[a-z0-9]|-(?!-)){1,38}[a-z0-9]\Z` of `_VANITY_RE`, after `k` rounds of the group. The class after
-- the group can only take the last character, so the greedy match has no choice to undo.
vanity_rest : ℕ → Text → Bool
vanity_rest k [] = false
vanity_rest k (c ∷ []) = leb 1 k && leb k 38 && is_lower_alnum c
vanity_rest k (c ∷ d ∷ cs) =
    (is_lower_alnum c || (c == b'-' && not (d == b'-'))) && ltb k 38 && vanity_rest (k + 1) (d ∷ cs)

vanity_match : Text → Bool
unfolding vanity_rest
vanity_match [] = false
vanity_match (c ∷ cs) = is_lower c && vanity_rest 0 cs

abbrev pub reserved_vanity : List Text
reserved_vanity =
    codes "grafana"
    ∷ codes "argocd"
    ∷ codes "api"
    ∷ codes "app"
    ∷ codes "www"
    ∷ codes "admin"
    ∷ codes "status"
    ∷ codes "docs"
    ∷ codes "mail"
    ∷ codes "customers"
    ∷ codes "shipzen"
    ∷ codes "dashboard"
    ∷ codes "login"
    ∷ codes "auth"
    ∷ []

-- `len(name) > 8 and name[8] == "-"`
abbrev ninth_is_hyphen : Option ℕ → Bool
ninth_is_hyphen none = false
ninth_is_hyphen (some c) = c == b'-'

unfoldable pub is_reserved : Text → Bool
is_reserved name = any (text_eq name) reserved_vanity

-- `none` is a value that is not a `str`.
unfoldable pub vanity_problem : Option Text → Option Problem
unfolding vanity_match
vanity_problem none = some bad_shape
vanity_problem (some name) =
    if not (vanity_match name)
    then some bad_shape
    else if is_reserved name
    then some reserved
    else if ninth_is_hyphen (get_elem? name 8)
    then some release_shape
    else none

abbrev is_none : Option Problem → Bool
is_none none = true
is_none (some p) = false

unfoldable pub valid_vanity : Option Text → Bool
valid_vanity name = is_none (vanity_problem name)

abbrev pub suffix : Text
suffix = codes "-shipzen.jeneeldumasia.codes"

unfoldable pub vanity_hostname : Text → Text
vanity_hostname name = name ++ suffix

-- `f"{d_id[:8]}-{_k8s_slug(project.name)}-shipzen.jeneeldumasia.codes"`
unfoldable pub release_hostname : Text → Text → Text
release_hostname id slug = take 8 id ++ b'-' ∷ slug ++ suffix
