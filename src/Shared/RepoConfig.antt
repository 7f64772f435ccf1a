-- ===== src/Shared/RepoConfig.antt =====
-- shipzen_common/repo_config.py: the deploy config that a repository ships, which is untrusted.
pub mod Laws
use ship_zen_gcp.Prelude.{
  ℕ, ◌+◌, Bool, true, false, not, ◌&&◌, ◌||◌, List, [], ◌∷◌, Text, Option, none, some, codes,
  text_eq, any, all, length, is_alnum, ltb, leb, ◌==◌, starts_with, split, strip, if◌then◌else◌,
}

-- What `yaml.safe_load` gives for a value, as far as the checks tell values apart. A negative number is
-- `neg`; `other` is a float, a date, a list or a nested mapping.
pub data Value : Type 0 where
  null : Value
  bool : Bool → Value
  int : ℕ → Value
  neg : ℕ → Value
  str : Text → Value
  other : Value

-- A mapping as the values of the keys that are read (`null` if missing), or another document.
pub data Document : Type 0 where
  empty : Document
  mapping : Value → Value → Value → Document
  scalar : Value → Document

pub data RepoConfigError : Type 0 where
  not_a_mapping bad_port bad_health_path bad_context : RepoConfigError

pub data Parsed {ℓ} (A : Type ℓ) : Type ℓ where
  ok : A → Parsed A
  err : RepoConfigError → Parsed A

infixl 5 ◌>>=◌
abbrev pub ◌>>=◌ {ℓ κ} : {A : Type ℓ} {B : Type κ} → Parsed A → (A → Parsed B) → Parsed B
ok a >>= f = f a
err e >>= f = err e

pub record Config : Type 0 where
  pub port : Option ℕ
  pub health_check_path : Option Text
  pub build_context : Option Text

-- `[A-Za-z0-9._~%/-]` and `[A-Za-z0-9._/-]`
abbrev pub is_path_char : ℕ → Bool
is_path_char c =
    is_alnum c || c == b'.' || c == b'_' || c == b'~' || c == b'%' || c == b'/' || c == b'-'

abbrev pub is_context_char : ℕ → Bool
is_context_char c = is_alnum c || c == b'.' || c == b'_' || c == b'/' || c == b'-'

abbrev is_hex : ℕ → Bool
is_hex c = (leb b'0' c && leb c b'9') || (leb b'a' c && leb c b'f')

-- `HEALTH_PATH_RE`
health_path_match : Text → Bool
health_path_match [] = false
health_path_match (c ∷ cs) = c == b'/' && all is_path_char cs && leb (length cs) 200

unfoldable pub valid_health_check_path : Value → Bool
unfolding health_path_match
valid_health_check_path (str s) = health_path_match s
valid_health_check_path v = false

-- `re.fullmatch(r"sha256:[0-9a-f]{64}", value)`
abbrev digest_rest : Text → Text → Bool
digest_rest [] cs = all is_hex cs && length cs == 64
digest_rest (p ∷ ps) [] = false
digest_rest (p ∷ ps) (c ∷ cs) = p == c && digest_rest ps cs

unfoldable pub valid_image_digest : Value → Bool
valid_image_digest (str s) = digest_rest (codes "sha256:") s
valid_image_digest v = false

unfoldable pub valid_port : Value → Bool
valid_port (int n) = leb 1 n && leb n 65535
valid_port v = false

-- `BUILD_CONTEXT_RE`, the leading slash and the `..` component.
pub context_ok : Text → Bool
context_ok s =
    all is_context_char s
    && leb (length s) 200
    && not (starts_with (codes "/") s)
    && not (any (text_eq (codes "..")) (split b'/' s))

port_of : Value → Parsed (Option ℕ)
unfolding valid_port
port_of null = ok none
port_of (int n) = if valid_port (int n) then ok (some n) else err bad_port
port_of v = err bad_port

health_of : Value → Parsed (Option Text)
unfolding valid_health_check_path
health_of null = ok none
health_of (str s) = if valid_health_check_path (str s) then ok (some s) else err bad_health_path
health_of v = err bad_health_path

context_of : Value → Parsed (Option Text)
unfolding context_ok
context_of null = ok none
context_of (str s) = if context_ok s then ok (some (strip b'/' s)) else err bad_context
context_of v = err bad_context

abbrev pub no_settings : Config
no_settings = record { port = none; health_check_path = none; build_context = none }

unfoldable pub parse_repo_config : Document → Parsed Config
unfolding port_of health_of context_of
parse_repo_config empty = ok no_settings
parse_repo_config (scalar v) = err not_a_mapping
parse_repo_config (mapping p h c) = do
  port ← port_of p
  path ← health_of h
  context ← context_of c
  ok (record { port = port; health_check_path = path; build_context = context })
