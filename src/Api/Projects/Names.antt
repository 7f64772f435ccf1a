-- ===== src/Api/Projects/Names.antt =====
-- api/routers/projects.py and api/validation.py: the names that a project may have.
use ship_zen_gcp.Prelude.{
  drop_spaces, drop_last_spaces, ℕ, Bool, false, not, ◌&&◌, ◌||◌, List, [], ◌∷◌, Text, text_eq,
  starts_with, Option, none, some, any, all, length, leb, ◌==◌, if◌then◌else◌, is_alnum,
  is_lower_alnum, codes,
}
use ship_zen_gcp.Shared.Slug.{lower}

-- `\A[A-Za-z0-9][A-Za-z0-9 ._\-]{0,62}\Z`
abbrev in_name : ℕ → Bool
in_name c = is_alnum c || c == b' ' || c == b'.' || c == b'_' || c == b'-'

unfoldable pub valid_name : Text → Bool
valid_name [] = false
valid_name (c ∷ cs) = is_alnum c && all in_name cs && leb (length cs) 62

-- `^[a-z0-9][a-z0-9\-]{1,61}[a-z0-9]$`: the text, or the text before a newline at its end.
abbrev pub chomp : Text → Text
chomp [] = []
chomp (c ∷ []) = if c == 10 then [] else c ∷ []
chomp (c ∷ d ∷ cs) = c ∷ chomp (d ∷ cs)

abbrev in_label : ℕ → Bool
in_label c = is_lower_alnum c || c == b'-'

abbrev pub ends_label : Text → Bool
ends_label [] = false
ends_label (c ∷ []) = is_lower_alnum c
ends_label (c ∷ d ∷ cs) = ends_label (d ∷ cs)

abbrev starts_label : Text → Bool
starts_label [] = false
starts_label (c ∷ cs) = is_lower_alnum c

unfoldable pub namespace_match : Text → Bool
namespace_match t =
    starts_label t && ends_label t && all in_label t && leb 3 (length t) && leb (length t) 63

-- `_RESERVED_NS_EXACT` and `_RESERVED_NS_PREFIXES`
abbrev pub reserved_names : List Text
reserved_names =
    codes "default"
    ∷ codes "kube-system"
    ∷ codes "kube-public"
    ∷ codes "kube-node-lease"
    ∷ codes "argocd"
    ∷ codes "observability"
    ∷ codes "kyverno"
    ∷ codes "keda"
    ∷ codes "external-secrets"
    ∷ codes "external-dns"
    ∷ codes "velero"
    ∷ []

abbrev pub reserved_prefixes : List Text
reserved_prefixes =
    codes "kube-" ∷ codes "shipzen-" ∷ codes "gke-" ∷ codes "gmp-" ∷ codes "envoy-" ∷ []

unfoldable pub is_reserved_namespace : Text → Bool
is_reserved_namespace v =
    any (text_eq v) reserved_names || any (λ p. starts_with p v) reserved_prefixes

unfoldable pub valid_namespace : Text → Bool
unfolding namespace_match is_reserved_namespace
valid_namespace v = namespace_match (chomp v) && not (is_reserved_namespace v)

abbrev or_none : Text → Option Text
or_none [] = none
or_none (c ∷ cs) = some (c ∷ cs)

-- `(body.subdomain or "").strip().lower() or None`
unfoldable pub subdomain_of : Option Text → Option Text
unfolding lower
subdomain_of none = none
subdomain_of (some t) = or_none (lower (drop_last_spaces (drop_spaces t)))
