-- ===== src/Examples/Tenants.antt =====
-- Projects, members and variables at concrete values.
use ship_zen_gcp.Prelude.{
  ◌≡◌, refl, sym, true, List, [], ◌∷◌, Option, none, some, codes, ◌==◌, if◌then◌else◌, inl,
}
use ship_zen_gcp.Database.{RowId}
use ship_zen_gcp.Shared.Sizes
use ship_zen_gcp.Api.Store.{Store, owner}
use ship_zen_gcp.Api.Access.{find_member}
use ship_zen_gcp.Api.Crypto.{Fernet, decrypt_value, encrypt_value, decrypt_value-encrypt_value}
use ship_zen_gcp.Api.Env.{Values, SecretManager, Calls}
use ship_zen_gcp.Api.Env.Refines.{Op, put, delete_env, effects, serve_all-effects, view, serve_all}
use ship_zen_gcp.Api.Projects.Consistent.{is_owned, are_distinct, IsConsistent}
use ship_zen_gcp.Api.Projects.Requests
use ship_zen_gcp.Examples.Rows.{shop, request, empty_store}

abbrev plain : Fernet
plain = record {
  encrypt = λ key v. some v;
  decrypt = λ key token. some token;
  decrypt-encrypt = λ key v token e. sym e;
}

stored : encrypt_value plain (some (codes "k")) (codes "5f") ≡ some (codes "enc:v1:5f")
unfolding encrypt_value
stored = refl

decrypt_value-encrypt_value_example :
    decrypt_value plain (some (codes "k")) (codes "enc:v1:5f") ≡ some (codes "5f")
decrypt_value-encrypt_value_example =
    decrypt_value-encrypt_value plain (some (codes "k")) (some (codes "k")) (codes "5f")
      (codes "enc:v1:5f") stored (inl (refl, refl))

abbrev vault : SecretManager
vault = record {
  Vault = RowId → Option Values;
  newest = λ m i. m i;
  create = λ m i. m;
  add_version = λ m i vs j. if i == j then some vs else m j;
  newest-create = λ m i j. refl;
  newest-add_version = λ m i vs j. refl;
}

abbrev works : Calls
works = record { reads = true; writes = true }

abbrev asked : List Op
asked = put works (codes "PORT") (codes "80") ∷ delete_env works (codes "DEBUG") ∷ []

serve_all-effects_example :
    view vault (serve_all vault 1 asked (λ _. none)) 1 (codes "PORT")
    ≡ effects asked (view vault (λ _. none) 1) (codes "PORT")
serve_all-effects_example = serve_all-effects vault 1 asked (λ _. none) (codes "PORT")

abbrev team : Store
team = record empty_store {
  projects = shop ∷ [];
  members = record { project = 1; user = 5; role = owner } ∷ [];
}

team-IsConsistent : IsConsistent team
unfolding is_owned are_distinct find_member
team-IsConsistent = record { owned = refl; distinct = refl }

serve_all-IsConsistent_example : IsConsistent (
    Requests.serve_all
      ((request, Requests.scale 1 (Sizes.known Sizes.large) 1 2)
        ∷ (request, Requests.remove 1 5)
        ∷ [])
      team)
serve_all-IsConsistent_example =
    Requests.serve_all-IsConsistent
      ((request, Requests.scale 1 (Sizes.known Sizes.large) 1 2)
        ∷ (request, Requests.remove 1 5)
        ∷ [])
      team team-IsConsistent
