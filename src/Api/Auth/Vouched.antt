-- ===== src/Api/Auth/Vouched.antt =====
-- Whoever is let in was vouched for less than a minute ago, since the last eviction.
use ship_zen_gcp.Prelude.{
  all-imp, all-filter-imp, all-cons, find?-holds, ℕ, ◌+◌, ◌≡◌, refl, sym, ap, ◌∙◌, Bool, true,
  false, not, ◌&&◌, List, [], ◌∷◌, Text, text_eq, text_eq→eq, text_eq_refl, Option, none, some, any,
  all, ltb, ◌==◌, ==_iff, if◌then◌else◌, Bool-cases, inl, inr, arith, subst,
}
use ship_zen_gcp.Database.{RowId}
use ship_zen_gcp.Api.Store.{Reply, ok, http}
use ship_zen_gcp.Api.Auth.{
  Caller, Entry, Auth, Policy, Call, is_unexpired, cached, refuse_suspended, get_current_user,
  evict_user_token_cache,
}
use ship_zen_gcp.Api.Auth.Claims.{claimed, get_current_user-Ends}

-- What the module went through, the latest first, from a fresh start.
pub data Event : Type 0 where
  called : Call → Event
  evicted : RowId → Event

unfoldable pub play : Policy → Event → Auth → Auth
play pol (called c) a = (get_current_user pol c a).1
play pol (evicted u) a = evict_user_token_cache u a

abbrev pub fresh_start : Auth
fresh_start = record { cache = []; keys = []; failures = 0; last_failure = 0; is_open = false }

unfoldable pub run : Policy → List Event → Auth
run pol [] = fresh_start
run pol (e ∷ es) = play pol e (run pol es)

-- The events after the last eviction of the user.
unfoldable pub after_eviction : RowId → List Event → List Event
after_eviction u [] = []
after_eviction u (called c ∷ es) = called c ∷ after_eviction u es
after_eviction u (evicted v ∷ es) =
    let rest = after_eviction u es in if v == u then [] else evicted v ∷ rest

abbrev same_flag : Bool → Bool → Bool
same_flag true b = b
same_flag false b = not b

abbrev is_caller : Caller → Option Caller → Bool
is_caller u none = false
is_caller u (some v) =
    v.id == u.id && same_flag v.is_admin u.is_admin && same_flag v.suspended u.suspended

abbrev is_token : Text → Option Text → Bool
is_token t none = false
is_token t (some s) = text_eq s t

-- The event is a call with the token at that time that vouches for the caller.
pub establishes : Policy → Text → Caller → ℕ → Event → Bool
establishes pol t u at (called c) = is_token t c.token && c.now == at && is_caller u (claimed pol c)
establishes pol t u at (evicted v) = false

abbrev backed : Policy → List Event → Entry → Bool
backed pol es e = any (establishes pol e.token e.caller e.since) (after_eviction e.caller.id es)

-- Each cached entry was vouched for by a call with its token, at its time, after the last eviction of
-- its user.
pub AllBacked : Policy → List Event → List Entry → Type 0
AllBacked pol es cs = all (backed pol es) cs ≡ true

kept-backed :
    (pol : Policy) (c : Call) (es : List Event) (e : Entry)
    → backed pol es e ≡ true
    → backed pol (called c ∷ es) e ≡ true
unfolding after_eviction
kept-backed pol c es e h = ground (arith, h)

same_flag_refl : (b : Bool) → same_flag b b ≡ true
same_flag_refl true = refl
same_flag_refl false = refl

same_caller : (u : Caller) → is_caller u (some u) ≡ true
same_caller u =
    ground (arith, ==_iff u.id u.id, same_flag_refl u.is_admin, same_flag_refl u.suspended)

new-backed :
    (pol : Policy) (c : Call) (es : List Event) (t : Text) (u : Caller)
    → c.token ≡ some t
    → claimed pol c ≡ some u
    → backed pol (called c ∷ es) (record { token = t; caller = u; since = c.now }) ≡ true
unfolding after_eviction establishes
new-backed pol c es t u sent h =
    simp (sent, h, text_eq_refl t, same_caller u) (ground (arith, ==_iff c.now c.now))

left-backed :
    (pol : Policy) (v : RowId) (es : List Event) (e : Entry)
    → (e.caller.id == v) ≡ false
    → backed pol es e ≡ true
    → backed pol (evicted v ∷ es) e ≡ true
unfolding after_eviction establishes
left-backed pol v es e other h =
    ground (arith, other, h, ==_iff v e.caller.id, ==_iff e.caller.id v)

-- A call keeps the cache backed, however it ends.
called-AllBacked :
    (pol : Policy) (c : Call) (es : List Event) (a : Auth)
    → AllBacked pol es a.cache
    → AllBacked pol (called c ∷ es) (get_current_user pol c a).1.cache
unfolding AllBacked
called-AllBacked pol c es a h =
    get_current_user-Ends pol c a (λ r cs. AllBacked pol (called c ∷ es) cs) (λ n. aged)
      (λ t e sent found. aged)
      (λ t u sent claims.
        all-cons (backed pol (called c ∷ es)) (record { token = t; caller = u; since = c.now }) _
          (new-backed pol c es t u sent claims)
          (all-filter-imp _ (backed pol es) (backed pol (called c ∷ es))
            (λ e kept. kept-backed pol c es e) a.cache h))
  where
    aged : AllBacked pol (called c ∷ es) a.cache
    aged = all-imp (backed pol es) (backed pol (called c ∷ es)) (kept-backed pol c es) a.cache h

evicted-AllBacked :
    (pol : Policy) (v : RowId) (es : List Event) (a : Auth)
    → AllBacked pol es a.cache
    → AllBacked pol (evicted v ∷ es) (evict_user_token_cache v a).cache
unfolding evict_user_token_cache AllBacked
evicted-AllBacked pol v es a h =
    all-filter-imp _ (backed pol es) (backed pol (evicted v ∷ es))
      (λ e kept. left-backed pol v es e (ground (arith, kept))) a.cache h

run-AllBacked : (pol : Policy) (es : List Event) → AllBacked pol es (run pol es).cache
unfolding AllBacked run play
run-AllBacked pol [] = refl
run-AllBacked pol (called c ∷ es) = called-AllBacked pol c es (run pol es) (run-AllBacked pol es)
run-AllBacked pol (evicted v ∷ es) = evicted-AllBacked pol v es (run pol es) (run-AllBacked pol es)

-- Who vouched for a caller: this call, or one with the same token less than a minute before, after the
-- last eviction of the user.
pub data Vouched (pol : Policy) (es : List Event) (c : Call) (u : Caller) : Type 0 where
  by_now : claimed pol c ≡ some u → Vouched pol es c u
  by_cache :
      (t : Text) (at : ℕ)
      → c.token ≡ some t
      → ltb c.now (at + 60) ≡ true
      → any (establishes pol t u at) (after_eviction u.id es) ≡ true
      → Vouched pol es c u

-- What a reply says of the caller, if it lets one in.
abbrev Answers : Policy → List Event → Call → Reply Caller → Type 0
Answers pol es c (http n) = Unit {0}
Answers pol es c (ok u) = (u.suspended ≡ false) × Vouched pol es c u

refused-Answers :
    (pol : Policy) (es : List Event) (c : Call) (u : Caller)
    → Vouched pol es c u
    → Answers pol es c (refuse_suspended u)
refused-Answers pol es c u h = elim (Bool-cases u.suspended) [
  | inl e ↦ simp e tt
  | inr e ↦ simp e (refl, h)
]

cached-Vouched :
    (pol : Policy) (es : List Event) (c : Call) (t : Text) (e : Entry)
    → c.token ≡ some t
    → cached c.now t (run pol es).cache ≡ some e
    → Vouched pol es c e.caller
unfolding cached AllBacked
cached-Vouched pol es c t e sent found =
    by_cache e.token e.since (sent ∙ ap some (sym (text_eq→eq e.token t (ground (arith, held)))))
      (ground (arith, held)) (ground (arith, held))
  where
    held : (is_unexpired c.now t e && backed pol es e) ≡ true
    held =
        find?-holds (is_unexpired c.now t) (backed pol es) (run pol es).cache e found
          (run-AllBacked pol es)

call-Answers :
    (pol : Policy) (es : List Event) (c : Call)
    → Answers pol es c (get_current_user pol c (run pol es)).0
call-Answers pol es c =
    get_current_user-Ends pol c (run pol es) (λ r cs. Answers pol es c r) (λ n. tt)
      (λ t e sent found. refused-Answers pol es c e.caller (cached-Vouched pol es c t e sent found))
      (λ t u sent claims. refused-Answers pol es c u (by_now claims))

-- Whatever calls and evictions went before, whoever a call lets in is not suspended, and this call
-- vouches for them, or a call with the same token less than 60 seconds before does, which came after the
-- last eviction of that user.
pub get_current_user-Vouched :
    (pol : Policy) (es : List Event) (c : Call) (u : Caller)
    → (get_current_user pol c (run pol es)).0 ≡ ok u
    → (u.suspended ≡ false) × Vouched pol es c u
get_current_user-Vouched pol es c u let_in = subst (Answers pol es c) let_in (call-Answers pol es c)
