-- ===== src/Api/Env.antt =====
-- api/secret_store.py and api/routers/env.py: the environment variables of a project, one JSON object in
-- Secret Manager. The service is third-party code; its JSON texts are taken as the objects they encode.
-- Writes of one project run one after the other, under a lock of the database.
pub mod Refines
use ship_zen_gcp.Prelude.{
  ℕ, ◌+◌, ◌≡◌, Bool, true, false, not, ◌&&◌, ◌||◌, List, [], ◌∷◌, Text, text_eq, Option, none, some,
  length, all, ltb, leb, ◌==◌, if◌then◌else◌, get_or, is_some, is_upper, is_digit, map, any,
}
use ship_zen_gcp.Database.{RowId}
use ship_zen_gcp.Api.Store.{Reply, ok, http}

-- A `dict` of texts, in the order of insertion.
abbrev pub Values : Type 0
Values = List (Text × Text)

unfoldable pub lookup : Text → Values → Option Text
lookup k [] = none
lookup k ((j, v) ∷ vs) = let rest = lookup k vs in if text_eq k j then some v else rest

-- `values[k] = v`
unfoldable pub set_key : Text → Text → Values → Values
set_key k v [] = (k, v) ∷ []
set_key k v ((j, w) ∷ vs) =
    let rest = set_key k v vs in if text_eq k j then (j, v) ∷ vs else (j, w) ∷ rest

-- `del values[k]`; a `dict` has a key once.
unfoldable pub del_key : Text → Values → Values
del_key k [] = []
del_key k ((j, w) ∷ vs) = let rest = del_key k vs in if text_eq k j then rest else (j, w) ∷ rest

-- The service: the newest version of a project's secret (`none` is NotFound: no secret, or one without a
-- version), creating a secret, and adding a version. A new version is the newest from then on, and
-- creating a secret adds none.
pub record SecretManager : Type 1 where
  pub Vault : Type 0
  pub newest : Vault → RowId → Option Values
  pub create : Vault → RowId → Vault
  pub add_version : Vault → RowId → Values → Vault
  pub newest-create : (m : Vault) (i j : RowId) → newest (create m i) j ≡ newest m j
  pub newest-add_version :
      (m : Vault) (i : RowId) (vs : Values) (j : RowId)
      → newest (add_version m i vs) j ≡ (if i == j then some vs else newest m j)

-- `[A-Z_][A-Z0-9_]{0,254}` before the end or a newline at the end.
abbrev pub starts_key : ℕ → Bool
starts_key c = is_upper c || c == b'_'

abbrev pub in_key : ℕ → Bool
in_key c = is_upper c || is_digit c || c == b'_'

abbrev pub drop_newline : Text → Text
drop_newline [] = []
drop_newline (c ∷ []) = if c == 10 then [] else c ∷ []
drop_newline (c ∷ d ∷ cs) = c ∷ drop_newline (d ∷ cs)

abbrev key_ok : Text → Bool
key_ok [] = false
key_ok (c ∷ cs) = starts_key c && all in_key cs && leb (length cs) 254

unfoldable pub valid_key : Text → Bool
valid_key k = key_ok (drop_newline k)

-- `len(v.encode('utf-8'))`
abbrev pub utf8_width : ℕ → ℕ
utf8_width c = if ltb c 128 then 1 else if ltb c 2048 then 2 else if ltb c 65536 then 3 else 4

unfoldable pub utf8_length : Text → ℕ
utf8_length [] = 0
utf8_length (c ∷ cs) = utf8_width c + utf8_length cs

-- `_ENV_VALUE_MAX`
unfoldable pub valid_value : Text → Bool
unfolding utf8_length
valid_value v = leb (utf8_length v) 32768

-- Whether the calls of one request that read and that write raise an error other than NotFound.
pub record Calls : Type 0 where
  pub reads : Bool
  pub writes : Bool

module _ (sm : SecretManager) where
  open sm use {Vault, newest, create, add_version}

  unfoldable pub save_env : RowId → Values → Vault → Vault
  save_env p vs m = add_version (create m p) p vs

  -- Put: of `/env` and of `/secrets`, which differ in their messages only.
  unfoldable pub put_env_var : Calls → RowId → Text → Text → Vault → Reply (Unit {0}) × Vault
  put_env_var c p k v m =
      if not (valid_key k && valid_value v)
      then (http 422, m)
      else if c.reads && c.writes
      then (ok tt, save_env p (set_key k v (get_or (newest m p) [])) m)
      else (http 500, m)

  -- Delete, with the status for a secret that is not there: 200 of `/env`, 404 of `/secrets`.
  abbrev pub delete_from :
      Reply (Unit {0}) → Calls → RowId → Text → Option Values → Vault → Reply (Unit {0}) × Vault
  delete_from missing c p k none m = (missing, m)
  delete_from missing c p k (some vs) m =
      if is_some (lookup k vs)
      then (if c.writes then (ok tt, save_env p (del_key k vs) m) else (http 500, m))
      else (ok tt, m)

  unfoldable pub delete_env_var : Calls → RowId → Text → Vault → Reply (Unit {0}) × Vault
  delete_env_var c p k m =
      if c.reads then delete_from (ok tt) c p k (newest m p) m else (http 500, m)

  unfoldable pub delete_secret : Calls → RowId → Text → Vault → Reply (Unit {0}) × Vault
  delete_secret c p k m =
      if c.reads then delete_from (http 404) c p k (newest m p) m else (http 500, m)

  -- The names, never the values.
  unfoldable pub get_env_vars : Calls → RowId → Vault → Reply (List Text)
  get_env_vars c p m = if c.reads then ok (map (λ kv. kv.0) (get_or (newest m p) [])) else http 500
