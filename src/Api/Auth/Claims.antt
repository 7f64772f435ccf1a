-- ===== src/Api/Auth/Claims.antt =====
-- Whom a call of `get_current_user` vouches for, and the ways in which it can end.
use ship_zen_gcp.Prelude.{
  ℕ, ◌-◌, ◌≡◌, refl, ap, ◌∙◌, Bool, true, false, not, ◌&&◌, List, ◌∷◌, Text, text_eq, Option, none,
  some, filter, ltb, if◌then◌else◌, codes, Bool-cases, Option-cases, inl, inr,
}
use ship_zen_gcp.Database.{RowId}
use ship_zen_gcp.Api.Store.{Reply, http}
use ship_zen_gcp.Api.Auth.{
  Caller, Entry, Auth, Policy, Github, unreachable, status, user, Call, cached, refuse_suspended,
  may_sign_in, caller_of, remember, sign_in_as, count_failure, reset, ask, through_breaker,
  from_cache, stub_user, with_token, with_credentials, get_current_user,
}

-- Whom a call vouches for: the user that GitHub names for the token, if the login may sign in, with the
-- role and suspension of the database; or the local stub's, if that is enabled.
abbrev account_of : RowId → Option (Bool × Bool) → Option Caller
account_of i none = none
account_of i (some account) = some (caller_of i account)

abbrev by_github : Policy → Github → Option (Bool × Bool) → Option Caller
by_github pol unreachable account = none
by_github pol (status n b) account = none
by_github pol (user i) account = if may_sign_in pol i then account_of i.id account else none

abbrev claimed_with : Policy → Option Text → Github → Option (Bool × Bool) → Option Caller
claimed_with pol none g account = none
claimed_with pol (some t) g account =
    if text_eq t (codes "stub-token")
    then (if pol.stub_enabled then account_of stub_user account else none)
    else by_github pol g account

pub claimed : Policy → Call → Option Caller
claimed pol c = claimed_with pol c.token c.answer c.account

-- How a call can end, and the cache that it leaves.
module _ (pol : Policy) (c : Call) (a : Auth) (P : Reply Caller → List Entry → Type 0)
    (refused : (n : ℕ) → P (http n) a.cache)
    (known : (t : Text) (e : Entry)
      → c.token ≡ some t
      → cached c.now t a.cache ≡ some e
      → P (refuse_suspended e.caller) a.cache)
    (vouched : (t : Text) (u : Caller)
      → c.token ≡ some t
      → claimed pol c ≡ some u
      → P (refuse_suspended u) (
          record { token = t; caller = u; since = c.now }
          ∷ filter (λ e. not (c.drops e) && not (text_eq e.token t)) a.cache)) where
  abbrev Ends : Reply Caller × Auth → Type 0
  Ends x = P x.0 x.1.cache

  sign_in-Ends :
      (t : Text) (i : RowId) (o : Option (Bool × Bool)) (b : Auth)
      → b.cache ≡ a.cache
      → c.token ≡ some t
      → claimed pol c ≡ account_of i o
      → Ends (sign_in_as c t i o b)
  unfolding remember
  sign_in-Ends t i none b same sent h = rw same (refused 500)
  sign_in-Ends t i (some account) b same sent h = rw same (vouched t (caller_of i account) sent h)

  ask-Ends :
      (t : Text) (g : Github) (b : Auth)
      → b.cache ≡ a.cache
      → c.token ≡ some t
      → claimed pol c ≡ by_github pol g c.account
      → Ends (ask pol c t g b)
  unfolding count_failure
  ask-Ends t unreachable b same sent h = rw same (refused 503)
  ask-Ends t (status n used_up) b same sent h = rw same (refused _)
  ask-Ends t (user i) b same sent h = elim (Bool-cases (may_sign_in pol i)) [
    | inl e ↦ rw e (
        sign_in-Ends t i.id c.account (reset b) same sent
          (h ∙ ap (λ x. if x then account_of i.id c.account else none) e))
    | inr e ↦ rw (e, same) (refused 403)
  ]

  claimed_token :
      (t : Text) → c.token ≡ some t → claimed pol c ≡ claimed_with pol (some t) c.answer c.account
  unfolding claimed
  claimed_token t sent = ap (λ o. claimed_with pol o c.answer c.account) sent

  by_stub :
      (t : Text)
      → text_eq t (codes "stub-token") ≡ true
      → pol.stub_enabled ≡ true
      → claimed_with pol (some t) c.answer c.account ≡ account_of stub_user c.account
  by_stub t e f = rw (e, f) refl

  by_answer :
      (t : Text)
      → text_eq t (codes "stub-token") ≡ false
      → claimed_with pol (some t) c.answer c.account ≡ by_github pol c.answer c.account
  by_answer t e = rw e refl

  breaker-Ends :
      (t : Text)
      → c.token ≡ some t
      → claimed pol c ≡ by_github pol c.answer c.account
      → Ends (through_breaker pol c t a)
  breaker-Ends t sent h = elim (Bool-cases (a.is_open && ltb (c.now - a.last_failure) 30)) [
    | inl e ↦ rw e (refused 503)
    | inr e ↦ rw e (ask-Ends t c.answer (record a { is_open = false }) refl sent h)
  ]

  from_cache-Ends :
      (t : Text)
      → c.token ≡ some t
      → claimed pol c ≡ by_github pol c.answer c.account
      → Ends (from_cache pol c t (cached c.now t a.cache) a)
  from_cache-Ends t sent h = elim (Option-cases (cached c.now t a.cache)) [
    | inl e ↦ rw e (breaker-Ends t sent h)
    | inr (x, e) ↦ rw e (known t x sent e)
  ]

  with_token-Ends : (t : Text) → c.token ≡ some t → Ends (with_token pol c t a)
  with_token-Ends t sent = elim (Bool-cases (text_eq t (codes "stub-token"))) [
    | inl e ↦ rw e (elim (Bool-cases pol.stub_enabled) [
      | inl f ↦
          simp f
            (sign_in-Ends t stub_user c.account a refl sent (claimed_token t sent ∙ by_stub t e f))
      | inr f ↦ simp f (refused 401)
    ])
    | inr e ↦ rw e (elim (Bool-cases pol.github_enabled) [
      | inl f ↦ simp f (from_cache-Ends t sent (claimed_token t sent ∙ by_answer t e))
      | inr f ↦ simp f (refused 503)
    ])
  ]

  credentials-Ends : (o : Option Text) → c.token ≡ o → Ends (with_credentials pol c o a)
  credentials-Ends none sent = refused 401
  credentials-Ends (some t) sent = with_token-Ends t sent

  pub get_current_user-Ends : Ends (get_current_user pol c a)
  unfolding get_current_user
  get_current_user-Ends = credentials-Ends c.token refl
