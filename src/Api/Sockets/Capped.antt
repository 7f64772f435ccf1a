-- ===== src/Api/Sockets/Capped.antt =====
-- The count of a user's sockets is right, and within the cap.
use ship_zen_gcp.Prelude.{
  ℕ, zero, suc, ◌+◌, ◌≤◌, ◌≡◌, refl, Bool, true, false, List, [], ◌∷◌, ◌++◌, Text, Option, none,
  some, count, get_elem?, leb, ◌==◌, if◌then◌else◌, arith, Bool-cases, Option-cases, inl, inr,
  get_or, ap, sym, ◌∙◌, ==_iff, eq_sym,
}
use ship_zen_gcp.Database.{RowId}
use ship_zen_gcp.Api.Auth.{Caller}
use ship_zen_gcp.Api.Sockets.{
  Ticket, Counts, Phase, unidentified, known, reserved, listening, broken, closed, Resumption,
  received, checked, subscribed, ended, Sockets, identified, ws_user, reserve, ws_release, piece,
  set_phase, Happening, ticket_made, socket_accepted, went_on, go_on, happen, state_after,
}

-- A socket that has a slot of the user. One whose subscription raised keeps it for good.
abbrev pub holds : RowId → Phase → Bool
holds u (reserved v) = v == u
holds u (listening v) = v == u
holds u (broken v) = v == u
holds u p = false

abbrev weight : RowId → Phase → ℕ
weight u p = if holds u p then 1 else 0

same_count : (u v : RowId) (c : Counts) → (v == u) ≡ true → c v ≡ c u
same_count u v c e = ap c ((==_iff v u).0 e)

reserve-balance :
    (most : ℕ) (allowed : Bool) (v : RowId) (c : Counts) (u : RowId)
    → (reserve most allowed v c).1 u ≡ c u + weight u (reserve most allowed v c).0
unfolding reserve
reserve-balance most false v c u = omega arith
reserve-balance most true v c u = elim (Bool-cases (leb most (c v))) [
  | inl e ↦ rw e (omega arith)
  | inr e ↦
      rw (e, eq_sym u v)
        (elim (Bool-cases (v == u)) [
          | inl f ↦ rw f (ap (λ n. n + 1) (same_count u v c f))
          | inr f ↦ rw f (omega arith)
        ])
]

release-balance :
    (v : RowId) (c : Counts) (u : RowId)
    → weight u (listening v) ≤ c u
    → ws_release v c u + weight u (listening v) ≡ c u
unfolding ws_release
release-balance v c u h = elim (Bool-cases (v == u)) [
  | inl f ↦ ground (arith, f, h, eq_sym u v, same_count u v c f)
  | inr f ↦ ground (arith, f, eq_sym u v)
]

weight-identified : (u : RowId) (o : Option Caller) → weight u (identified o) ≡ 0
weight-identified u none = refl
weight-identified u (some v) = refl

reserve_bound :
    (most : ℕ) (allowed : Bool) (v : RowId) (c : Counts) (u : RowId)
    → c u ≤ most
    → (reserve most allowed v c).1 u ≤ most
unfolding reserve
reserve_bound most false v c u k = k
reserve_bound most true v c u k = elim (Bool-cases (leb most (c v))) [
  | inl e ↦ rw e k
  | inr e ↦ rw e (elim (Bool-cases (u == v)) [ inl f ↦ rw f (ground (arith, e)) | inr f ↦ rw f k ])
]

-- A piece changes the count of a user as it changes whether its socket has a slot of the user, and keeps
-- it within the cap.
balance :
    (most : ℕ) (sign_in : Text → Option Caller) (p : Phase) (a : Resumption) (ts : List Ticket)
    (c : Counts) (u : RowId)
    → weight u p ≤ c u
    → c u ≤ most
    → let x = piece most sign_in p a ts c in
      (x.2 u + weight u p ≡ c u + weight u x.0) × (x.2 u ≤ most)
balance most sign_in closed a ts c u h k = (refl, k)
balance most sign_in (broken v) a ts c u h k = (refl, k)
balance most sign_in unidentified (received now m) ts c u h k =
    (omega (arith, weight-identified u (ws_user sign_in now m ts).0), k)
balance most sign_in unidentified (checked b) ts c u h k = (refl, k)
balance most sign_in unidentified (subscribed b) ts c u h k = (refl, k)
balance most sign_in unidentified ended ts c u h k = (refl, k)
balance most sign_in (known v) (received now m) ts c u h k = (refl, k)
balance most sign_in (known v) (checked b) ts c u h k =
    (omega (arith, reserve-balance most b v.id c u), reserve_bound most b v.id c u k)
balance most sign_in (known v) (subscribed b) ts c u h k = (refl, k)
balance most sign_in (known v) ended ts c u h k = (refl, k)
balance most sign_in (reserved v) (received now m) ts c u h k = (refl, k)
balance most sign_in (reserved v) (checked b) ts c u h k = (refl, k)
balance most sign_in (reserved v) (subscribed true) ts c u h k = (refl, k)
balance most sign_in (reserved v) (subscribed false) ts c u h k = (refl, k)
balance most sign_in (reserved v) ended ts c u h k = (refl, k)
balance most sign_in (listening v) (received now m) ts c u h k = (refl, k)
balance most sign_in (listening v) (checked b) ts c u h k = (refl, k)
balance most sign_in (listening v) (subscribed b) ts c u h k = (refl, k)
balance most sign_in (listening v) ended ts c u h k =
    (omega (arith, release-balance v c u h), omega (arith, release-balance v c u h, k))

weight_of_head : (u : RowId) (r p : Phase) → some r ≡ some p → weight u r ≡ weight u p
weight_of_head u r p h = ap (λ o. weight u (get_or o r)) h

count-set_phase :
    (u : RowId) (n : ℕ) (p q : Phase) (ps : List Phase)
    → get_elem? ps n ≡ some p
    → count (holds u) (set_phase n q ps) + weight u p ≡ count (holds u) ps + weight u q
count-set_phase u n p q [] h = ground arith
count-set_phase u zero p q (r ∷ ps) h = omega (arith, weight_of_head u r p h)
count-set_phase u (suc n) p q (r ∷ ps) h = omega (arith, count-set_phase u n p q ps h)

weight-count :
    (u : RowId) (n : ℕ) (p : Phase) (ps : List Phase)
    → get_elem? ps n ≡ some p
    → weight u p ≤ count (holds u) ps
weight-count u n p [] h = ground arith
weight-count u zero p (r ∷ ps) h = omega (arith, weight_of_head u r p h)
weight-count u (suc n) p (r ∷ ps) h = omega (arith, weight-count u n p ps h)

count_snoc :
    (u : RowId) (ps : List Phase) → count (holds u) (ps ++ unidentified ∷ []) ≡ count (holds u) ps
count_snoc u [] = refl
count_snoc u (p ∷ ps) = omega (arith, count_snoc u ps)

-- The count of the user is the number of sockets that have a slot of theirs, and within the cap.
pub record IsCounted (most : ℕ) (u : RowId) (s : Sockets) : Type 0 where
  pub exact : s.counts u ≡ count (holds u) s.phases
  pub capped : s.counts u ≤ most

module _ (most : ℕ) (sign_in : Text → Option Caller) (u : RowId) where
  go_on-IsCounted :
      (n : ℕ) (a : Resumption) (s : Sockets)
      → IsCounted most u s
      → IsCounted most u (go_on most sign_in n a (get_elem? s.phases n) s)
  go_on-IsCounted n a s h = elim (Option-cases (get_elem? s.phases n)) [
    | inl e ↦ rw e h
    | inr (p, e) ↦
        let held = weight-count u n p s.phases e in
        let x = piece most sign_in p a s.tickets s.counts in
        let after =
          balance most sign_in p a s.tickets s.counts u (omega (arith, held, h.exact)) h.capped in
        rw e (record {
          exact = omega (arith, after.0, h.exact, count-set_phase u n p x.0 s.phases e);
          capped = after.1;
        })
  ]

  happen-IsCounted :
      (g : Happening) (s : Sockets)
      → IsCounted most u s
      → IsCounted most u (happen most sign_in g s)
  unfolding happen
  happen-IsCounted (ticket_made v c now) s h = record { exact = h.exact; capped = h.capped }
  happen-IsCounted socket_accepted s h = record {
    exact = h.exact ∙ sym (count_snoc u s.phases);
    capped = h.capped;
  }
  happen-IsCounted (went_on n a) s h = go_on-IsCounted n a s h

-- However the sockets of a process interleave, at any time the count of each user is the number of
-- sockets that have a slot of that user (those whose subscription raised included), and no user has more
-- than WS_MAX_PER_USER of them.
pub state_after-IsCounted :
    (most : ℕ) (sign_in : Text → Option Caller) (u : RowId) (hs : List Happening)
    → IsCounted most u (state_after most sign_in hs)
unfolding state_after
state_after-IsCounted most sign_in u [] = record { exact = refl; capped = omega arith }
state_after-IsCounted most sign_in u (g ∷ hs) =
    happen-IsCounted most sign_in u g (state_after most sign_in hs)
      (state_after-IsCounted most sign_in u hs)
