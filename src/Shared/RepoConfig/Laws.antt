-- ===== src/Shared/RepoConfig/Laws.antt =====
-- What passes the validation of a repository's config is harmless: to the port, to the manifests that
-- the path is rendered into, and to the files outside the clone.
use ship_zen_gcp.Prelude.{
  ℕ, ◌≤◌, ◌≡◌, refl, ap, Bool, true, false, ◌||◌, List, [], ◌∷◌, Text, Option, none, some, codes,
  text_eq, any, all, length, ◌==◌, starts_with, split, strip, lstrip, rstrip, cons_kept,
  add_to_head, all-strip, subst, arith, if◌then◌else◌,
}
use ship_zen_gcp.Shared.RepoConfig.{
  Value, null, str, Document, empty, mapping, scalar, Config, ok, is_path_char, is_context_char,
  health_path_match, context_ok, port_of, health_of, context_of, parse_repo_config,
}

-- `os.path.join` and the kernel's reading of a relative path: from a folder below the clone, given as
-- the stack of its components, `none` once `..` leaves the clone.
data Component : Type 0 where
  same parent child : Component

abbrev component : Text → Component
component s =
    if text_eq (codes "..") s
    then parent
    else if text_eq [] s || text_eq (codes ".") s
    then same
    else child

abbrev pop : List Text → Option (List Text)
pop [] = none
pop (d ∷ ds) = some ds

pub resolve : List Text → List Text → Option (List Text)
resolve stack [] = some stack
resolve stack (w ∷ ws) = elim (component w) [
  | same ↦ resolve stack ws
  | child ↦ resolve (w ∷ stack) ws
  | parent ↦ elim (pop stack) [ none ↦ none | some above ↦ resolve above ws ]
]

abbrev up : Text → Bool
up = text_eq (codes "..")

head_of : List Text → Text
head_of [] = []
head_of (w ∷ ws) = w

tail_of : List Text → List Text
tail_of [] = []
tail_of (w ∷ ws) = ws

abbrev KeepsParts : List Text → List Text → Type 0
KeepsParts ws vs =
    (head_of ws ≡ head_of vs) × (any up (tail_of ws) ≡ true → any up (tail_of vs) ≡ true)

-- One more character in front of both.
KeepsParts-cons :
    (c : ℕ) (ws vs : List Text)
    → KeepsParts ws vs
    → KeepsParts
        (if c == b'/' then [] ∷ ws else add_to_head c ws)
        (if c == b'/' then [] ∷ vs else add_to_head c vs)
unfolding head_of tail_of
KeepsParts-cons c [] [] h = ground arith
KeepsParts-cons c [] (v ∷ vs) h = ground arith
KeepsParts-cons c (w ∷ ws) [] h = ground (arith, ap up h.0)
KeepsParts-cons c (w ∷ ws) (v ∷ vs) h = ground (arith, ap up h.0)

split-rstrip_step :
    (c : ℕ) (r : Text) (ws : List Text)
    → KeepsParts (split b'/' r) ws
    → KeepsParts (split b'/' (cons_kept b'/' c r)) (if c == b'/' then [] ∷ ws else add_to_head c ws)
unfolding split head_of tail_of
split-rstrip_step c [] [] h = ground arith
split-rstrip_step c [] (w ∷ ws) h = ground (arith, h.0)
split-rstrip_step c (x ∷ xs) ws h = KeepsParts-cons c (split b'/' (x ∷ xs)) ws h

-- Trailing slashes are empty components at the end: taking them off adds no component.
split-rstrip : (s : Text) → KeepsParts (split b'/' (rstrip b'/' s)) (split b'/' s)
unfolding split rstrip head_of tail_of
split-rstrip [] = (refl, λ h. h)
split-rstrip (c ∷ cs) = split-rstrip_step c (rstrip b'/' cs) (split b'/' cs) (split-rstrip cs)

any-parts : (ws : List Text) → any up (head_of ws ∷ tail_of ws) ≡ any up ws
unfolding head_of tail_of
any-parts [] = refl
any-parts (w ∷ ws) = refl

lstrip-keeps : (s : Text) → starts_with (codes "/") s ≡ false → lstrip b'/' s ≡ s
unfolding lstrip
lstrip-keeps [] h = refl
lstrip-keeps (c ∷ cs) h = ground arith

resolve-some :
    (ws stack : List Text) → any up ws ≡ false → (to : List Text) × (resolve stack ws ≡ some to)
unfolding resolve
resolve-some [] stack h = (stack, refl)
resolve-some (w ∷ ws) stack h = ground (arith, resolve-some ws stack, resolve-some ws (w ∷ stack))

-- Stripping the slashes of an accepted folder brings no `..` into it.
strip-no_up : (s : Text) → context_ok s ≡ true → any up (split b'/' (strip b'/' s)) ≡ false
unfolding strip context_ok
strip-no_up s h = rw (lstrip-keeps s (ground arith)) (
    ground
      (arith, split-rstrip s, any-parts (split b'/' s), any-parts (split b'/' (rstrip b'/' s))))

abbrev PortOk : Option ℕ → Type 0
PortOk none = Unit
PortOk (some n) = (1 ≤ n) × (n ≤ 65535)

abbrev HealthOk : Option Text → Type 0
HealthOk none = Unit
HealthOk (some s) =
    (starts_with (codes "/") s ≡ true) × (all is_path_char s ≡ true) × (length s ≤ 201)

abbrev ContextOk : Option Text → Type 0
ContextOk none = Unit
ContextOk (some s) =
    (all is_context_char s ≡ true) × ((to : List Text) × (resolve [] (split b'/' s) ≡ some to))

pub record IsSafe (c : Config) : Type 0 where
  pub port : PortOk c.port
  pub health : HealthOk c.health_check_path
  pub context : ContextOk c.build_context

port-ok : (v : Value) (o : Option ℕ) → port_of v ≡ ok o → PortOk o
unfolding port_of
port-ok v none h = tt
port-ok v (some n) h = ground arith

health-ok : (v : Value) (o : Option Text) → health_of v ≡ ok o → HealthOk o
unfolding health_of health_path_match
health-ok v none h = tt
health-ok v (some []) h = ground arith
health-ok v (some (c ∷ cs)) h = ground arith

context-ok : (v : Value) (o : Option Text) → context_of v ≡ ok o → ContextOk o
unfolding context_of
context-ok v none h = tt
context-ok null (some s) h = ground arith
context-ok (str t) (some s) h =
    let ok' : context_ok t ≡ true = ground arith in
    let is : strip b'/' t ≡ s = ground arith in
    subst (λ u. ContextOk (some u)) is
      (
        unfold context_ok in all-strip is_context_char b'/' t (ground arith),
        resolve-some (split b'/' (strip b'/' t)) [] (strip-no_up t ok'),
      )
context-ok _ (some s) h = ground arith

-- Whatever a repository ships, if its config is accepted then a port in it lies in 1..65535; a health
-- path starts with a slash, is at most 201 characters long and holds only unreserved URL characters;
-- and a build folder holds only the allowed characters and, read as a path from the root of the
-- clone, stays inside the clone.
pub parse_repo_config-IsSafe : (d : Document) (c : Config) → parse_repo_config d ≡ ok c → IsSafe c
unfolding parse_repo_config
parse_repo_config-IsSafe empty c h = ground arith
parse_repo_config-IsSafe (scalar v) c h = ground arith
parse_repo_config-IsSafe (mapping p h k) c e = record {
  port = port-ok p c.port (ground arith);
  health = health-ok h c.health_check_path (ground arith);
  context = context-ok k c.build_context (ground arith);
}
