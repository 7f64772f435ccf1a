-- ===== src/Shared/Hostnames/Collision.antt =====
-- The two kinds of hostname never meet.
use mathlib.Core.List.{append_cancel_right}
use ship_zen_gcp.Prelude.{
  ℕ, zero, suc, ◌≤◌, ◌≡◌, ◌≢◌, refl, true, ◌∷◌, [], ◌++◌, Text, some, take, get_elem?, length,
  arith, ◌∙◌, ap,
}
use ship_zen_gcp.Shared.Hostnames.{
  valid_vanity, vanity_problem, vanity_hostname, release_hostname, suffix,
}

get_elem?-cut :
    (n : ℕ) (id rest : Text) → n ≤ length id → get_elem? (take n id ++ b'-' ∷ rest) n ≡ some b'-'
get_elem?-cut zero id rest h = refl
get_elem?-cut (suc n) [] rest h = absurd (omega arith)
get_elem?-cut (suc n) (c ∷ id) rest h = get_elem?-cut n id rest (omega arith)

ninth_of_valid : (name : Text) → valid_vanity (some name) ≡ true → get_elem? name 8 ≢ some b'-'
unfolding valid_vanity vanity_problem
ninth_of_valid name h e = ground arith

-- A valid vanity name's hostname is never the hostname of a release, whatever the slug, for every
-- release whose id has at least 8 characters. So nobody can claim a release's address.
pub vanity_hostname-ne-release_hostname :
    (name id slug : Text)
    → valid_vanity (some name) ≡ true
    → 8 ≤ length id
    → vanity_hostname name ≢ release_hostname id slug
unfolding vanity_hostname release_hostname
vanity_hostname-ne-release_hostname name id slug h k e =
    let same : name ≡ take 8 id ++ b'-' ∷ slug =
      append_cancel_right name (take 8 id ++ b'-' ∷ slug) suffix e in
    ninth_of_valid name h (ap (λ t. get_elem? t 8) same ∙ get_elem?-cut 8 id slug k)
