-- ===== src/Api/Accounts.antt =====
-- api/database.py: `get_or_create_user`, which decides at each sign-in who is an admin.
use ship_zen_gcp.Prelude.{
  ◌≡◌, refl, Bool, true, false, not, ◌&&◌, ◌||◌, List, [], ◌∷◌, ◌++◌, Option, none, some, find?,
  ◌==◌, if◌then◌else◌, arith, ap, ◌∙◌, Bool-cases, inl, inr,
}
use ship_zen_gcp.Database.{RowId}
use ship_zen_gcp.Database.Statements.{update}

-- `users.admin_source`: the lists of the environment, or another admin.
pub data Source : Type 0 where
  env by_admin : Source

pub record Account : Type 0 where
  pub id : RowId
  pub is_admin : Bool
  pub admin_source : Option Source
  pub suspended : Bool

abbrev is_env : Option Source → Bool
is_env none = false
is_env (some env) = true
is_env (some by_admin) = false

-- What a sign-in makes of a row; `named` says that the lists name the user.
unfoldable pub sign_in : Bool → Account → Account
sign_in named a =
    if not a.is_admin && named
    then record a { is_admin = true; admin_source = some env }
    else if a.is_admin && not named && is_env a.admin_source
    then record a { is_admin = false; admin_source = none }
    else a

unfoldable pub new_account : RowId → Bool → Account
new_account i named = record {
  id = i;
  is_admin = named;
  admin_source = if named then some env else none;
  suspended = false;
}

abbrev pub signed_in : RowId → Bool → Option Account → List Account → Account × List Account
signed_in i named none us = let a = new_account i named in (a, us ++ a ∷ [])
signed_in i named (some a) us = (sign_in named a, update (λ b. b.id == i) (sign_in named) us)

-- The account that the caller gets, and the table. A race of two first sign-ins ends with the row that
-- one of them made.
unfoldable pub get_or_create_user : RowId → Bool → List Account → Account × List Account
unfolding sign_in new_account update
get_or_create_user i named us = signed_in i named (find? (λ a. a.id == i) us) us

-- The admin role of an account that another admin gave.
abbrev lasting : Option Account → Bool
lasting none = false
lasting (some a) = a.is_admin && not (is_env a.admin_source)

sign_in_lem :
    (named : Bool) (a : Account)
    → (sign_in named a).is_admin ≡ (named || (a.is_admin && not (is_env a.admin_source)))
unfolding sign_in
sign_in_lem true a = ground arith
sign_in_lem false a = ground arith

sign_in_id : (named : Bool) (a : Account) → (sign_in named a).id ≡ a.id
unfolding sign_in
sign_in_id named a = ground arith

kept_id :
    (i : RowId) (named : Bool) (b : Account)
    → ((if b.id == i then sign_in named b else b).id == i) ≡ (b.id == i)
kept_id i named b = elim (Bool-cases (b.id == i)) [
  | inl e ↦ rw e (ap (λ k. k == i) (sign_in_id named b) ∙ e)
  | inr e ↦ rw e e
]

abbrev mapped : Bool → Option Account → Option Account
mapped named none = none
mapped named (some a) = some (sign_in named a)

find?-update :
    (i : RowId) (named : Bool) (us : List Account) (a : Account)
    → find? (λ b. b.id == i) us ≡ some a
    → find? (λ b. b.id == i) (update (λ b. b.id == i) (sign_in named) us) ≡ some (sign_in named a)
unfolding update
find?-update i named [] a h = ground arith
find?-update i named (b ∷ us) a h =
    rw (kept_id i named b) (again (b.id == i) b a _ _ (find?-update i named us a) h)
  where
    again :
        (hit : Bool) (b a : Account) (o o' : Option Account)
        → (o ≡ some a → o' ≡ some (sign_in named a))
        → (if hit then some b else o) ≡ some a
        → (if hit then some (if hit then sign_in named b else b) else o') ≡ some (sign_in named a)
    again true b a o o' k h = ap (mapped named) h
    again false b a o o' k h = k h

find?-append :
    (i : RowId) (us : List Account) (a : Account)
    → find? (λ b. b.id == i) us ≡ none
    → (a.id == i) ≡ true
    → find? (λ b. b.id == i) (us ++ a ∷ []) ≡ some a
find?-append i [] a h e = rw e refl
find?-append i (b ∷ us) a h e = ground (arith, find?-append i us a)

eq_refl : (i : RowId) → (i == i) ≡ true
eq_refl i = ground arith

-- What a sign-in gives: the role, and the row that is found from then on.
abbrev pub Admitted : RowId → Bool → Option Account → Account → List Account → Type 0
Admitted i named before a after =
    (a.is_admin ≡ (named || lasting before)) × (find? (λ b. b.id == i) after ≡ some a)

signed_in-Admitted :
    (i : RowId) (named : Bool) (us : List Account) (o : Option Account)
    → find? (λ a. a.id == i) us ≡ o
    → Admitted i named o (signed_in i named o us).0 (signed_in i named o us).1
unfolding new_account
signed_in-Admitted i named us none h =
    (ground arith, find?-append i us (new_account i named) h (eq_refl i))
signed_in-Admitted i named us (some a) h = (sign_in_lem named a, find?-update i named us a h)

-- At a sign-in exactly these are admins: whom the lists of the environment name, and whom another admin
-- made one. A user who was taken off the lists loses the role, and the first to sign in gets none by
-- being first. What the caller is told is what the table then says.
pub get_or_create_user-Admitted :
    (i : RowId) (named : Bool) (us : List Account)
    → Admitted i named
        (find? (λ a. a.id == i) us)
        (get_or_create_user i named us).0
        (get_or_create_user i named us).1
unfolding get_or_create_user
get_or_create_user-Admitted i named us =
    signed_in-Admitted i named us (find? (λ a. a.id == i) us) refl
