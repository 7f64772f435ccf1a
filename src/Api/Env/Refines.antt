-- ===== src/Api/Env/Refines.antt =====
-- The variables of a project refine a map from keys to values.
use mathlib.Core.Path.{fun_ext}
use ship_zen_gcp.Prelude.{
  ◌≡◌, refl, sym, ap, ◌∙◌, ◌↔◌, Bool, true, ◌&&◌, List, [], ◌∷◌, Text, text_eq, text_eq→eq,
  text_eq_refl, Option, none, some, ◌==◌, ==_iff, if◌then◌else◌, get_or, Bool-cases, inl, inr,
  arith,
}
use ship_zen_gcp.Database.{RowId}
use ship_zen_gcp.Api.Store.{Reply, ok, http}
use ship_zen_gcp.Api.Env.{
  Values, lookup, set_key, del_key, SecretManager, valid_key, valid_value, Calls, save_env,
  put_env_var, delete_from, delete_env_var, delete_secret,
}

text_eq_iff : (s t : Text) → (text_eq s t ≡ true) ↔ (s ≡ t)
text_eq_iff s t = (text_eq→eq s t, λ e. rw (sym e) (text_eq_refl s))

lookup-set_key :
    (j k v : Text) (vs : Values)
    → lookup j (set_key k v vs) ≡ (if text_eq j k then some v else lookup j vs)
unfolding lookup set_key
lookup-set_key j k v [] = refl
lookup-set_key j k v ((i, w) ∷ vs) =
    ground (arith, text_eq_iff j k, text_eq_iff k i, text_eq_iff j i, lookup-set_key j k v vs)

lookup-del_key :
    (j k : Text) (vs : Values)
    → lookup j (del_key k vs) ≡ (if text_eq j k then none else lookup j vs)
unfolding lookup del_key
lookup-del_key j k [] = ground arith
lookup-del_key j k ((i, w) ∷ vs) =
    ground (arith, text_eq_iff j k, text_eq_iff k i, text_eq_iff j i, lookup-del_key j k vs)

-- The abstract view: which value a key has.
abbrev pub Meaning : Type 0
Meaning = Text → Option Text

-- A request of a client, with the calls that fail.
pub data Op : Type 0 where
  put : Calls → Text → Text → Op
  delete_env : Calls → Text → Op
  delete_sec : Calls → Text → Op

-- What the request means: its change, if it is valid and no call fails.
abbrev pub change : Bool → Text → Option Text → Meaning → Meaning
change goes k v f j = if goes && text_eq j k then v else f j

pub effect : Op → Meaning → Meaning
effect (put c k v) f = change (valid_key k && valid_value v && c.reads && c.writes) k (some v) f
effect (delete_env c k) f = change (c.reads && c.writes) k none f
effect (delete_sec c k) f = change (c.reads && c.writes) k none f

pub effects : List Op → Meaning → Meaning
effects [] f = f
effects (o ∷ os) f = effects os (effect o f)

module _ (sm : SecretManager) where
  open sm use {Vault, newest, create, add_version, newest-create, newest-add_version}

  abbrev pub view : Vault → RowId → Meaning
  view m p k = lookup k (get_or (newest m p) [])

  pub serve : RowId → Op → Vault → Vault
  serve p (put c k v) m = (put_env_var sm c p k v m).1
  serve p (delete_env c k) m = (delete_env_var sm c p k m).1
  serve p (delete_sec c k) m = (delete_secret sm c p k m).1

  pub serve_all : RowId → List Op → Vault → Vault
  serve_all p [] m = m
  serve_all p (o ∷ os) m = serve_all p os (serve p o m)

  newest-save_env :
      (p : RowId) (vs : Values) (m : Vault) (j : RowId)
      → newest (save_env sm p vs m) j ≡ (if p == j then some vs else newest m j)
  unfolding save_env
  newest-save_env p vs m j = rw (newest-add_version (create m p) p vs j, newest-create m p j) refl

  view-save_env :
      (p : RowId) (vs : Values) (m : Vault) (k : Text) → view (save_env sm p vs m) p k ≡ lookup k vs
  view-save_env p vs m k = rw (newest-save_env p vs m p, (==_iff p p).1 refl) refl

  put-effect :
      (c : Calls) (p : RowId) (k v : Text) (m : Vault) (j : Text)
      → view (put_env_var sm c p k v m).1 p j ≡ effect (put c k v) (view m p) j
  unfolding put_env_var effect
  put-effect c p k v m j = ground (
    arith,
    view-save_env p (set_key k v (get_or (newest m p) [])) m j,
    lookup-set_key j k v (get_or (newest m p) []),
  )

  deleted :
      (missing : Reply (Unit {0})) (c : Calls) (p : RowId) (k : Text) (o : Option Values)
      (m : Vault) (j : Text)
      → newest m p ≡ o
      → view (delete_from sm missing c p k o m).1 p j ≡ change c.writes k none (view m p) j
  unfolding lookup
  deleted missing c p k none m j e = rw e (ground arith)
  deleted missing c p k (some vs) m j e = ground (
    arith,
    ap (λ (o : Option Values). lookup j (get_or o [])) e,
    view-save_env p (del_key k vs) m j,
    lookup-del_key j k vs,
    text_eq_iff j k,
  )

  delete_env-effect :
      (c : Calls) (p : RowId) (k : Text) (m : Vault) (j : Text)
      → view (delete_env_var sm c p k m).1 p j ≡ effect (delete_env c k) (view m p) j
  unfolding delete_env_var effect
  delete_env-effect c p k m j = elim (Bool-cases c.reads) [
    | inl e ↦ rw e (deleted (ok tt) c p k (newest m p) m j refl)
    | inr e ↦ rw e refl
  ]

  delete_sec-effect :
      (c : Calls) (p : RowId) (k : Text) (m : Vault) (j : Text)
      → view (delete_secret sm c p k m).1 p j ≡ effect (delete_sec c k) (view m p) j
  unfolding delete_secret effect
  delete_sec-effect c p k m j = elim (Bool-cases c.reads) [
    | inl e ↦ rw e (deleted (http 404) c p k (newest m p) m j refl)
    | inr e ↦ rw e refl
  ]

  serve-effect :
      (p : RowId) (o : Op) (m : Vault) (j : Text) → view (serve p o m) p j ≡ effect o (view m p) j
  unfolding serve
  serve-effect p (put c k v) m j = put-effect c p k v m j
  serve-effect p (delete_env c k) m j = delete_env-effect c p k m j
  serve-effect p (delete_sec c k) m j = delete_sec-effect c p k m j

  -- After any sequence of requests to set and delete variables and secrets of a project, of which any
  -- call may fail, each key has the value that the sequence of their meanings gives it: a valid request
  -- whose calls work sets or removes its key and no other, through /env or /secrets alike, and any other
  -- request changes nothing.
  pub serve_all-effects :
      (p : RowId) (os : List Op) (m : Vault) (j : Text)
      → view (serve_all p os m) p j ≡ effects os (view m p) j
  unfolding serve_all effects
  serve_all-effects p [] m j = refl
  serve_all-effects p (o ∷ os) m j =
      serve_all-effects p os (serve p o m) j
      ∙ ap (λ f. effects os f j) (fun_ext (serve-effect p o m))
