-- ===== src/Controller/Leader/Exclusion.antt =====
-- At most one replica leads.
use ship_zen_gcp.Prelude.{
  ℕ, ◌+◌, ◌-◌, ◌≤◌, ◌≡◌, refl, sym, subst, ◌∙◌, ap, Bool, true, false, Option, none, some, ltb,
  ◌==◌, if◌then◌else◌, is_some, Bool-cases, inl, inr, arith,
}
use ship_zen_gcp.Database.{same_id}
use ship_zen_gcp.Controller.Leader.{
  Lease, Service, or_own, last_seen, done, unreachable, refused, lost, written, older, is_expired,
  renewed, taken_over, new_lease, try_acquire_or_renew, release, Replicas, claim_of, attempt,
  resign, Step, tick, try, stop, Steps, none_yet, then_one,
}

absurd_of : {A : Type 0} → false ≡ true → A
absurd_of h = let never : ⊥ = ground arith in absurd never

none-some : (t : ℕ) → none ≡ some t → false ≡ true
none-some t h = ground arith

module _ (own : ℕ) where
  -- The Lease is this replica's, as of this time.
  abbrev Holds : ℕ → ℕ → Option Lease → Type 0
  Holds r t none = ⊥
  Holds r t (some l) = (l.holder ≡ some r) × (l.renew_time ≡ some t) × (l.duration ≡ some own)

  -- A replica that leads, and whose lease is not over, holds the Lease.
  record Led (s : Replicas) : Type 0 where
    led : (r t : ℕ) → s.leading r ≡ some t → s.clock ≤ t + own → Holds r t s.lease

  -- Who wins holds the Lease.
  written-Holds :
      (me now : ℕ) (served : Service) (new : Lease) (old : Option Lease)
      → Holds me now (some new)
      → (written served new old).0 ≡ true
      → Holds me now (written served new old).1
  written-Holds me now done new old h won = h
  written-Holds me now lost new old h won = ground arith
  written-Holds me now refused new old h won = ground arith
  written-Holds me now unreachable new old h won = ground arith

  same_holder : (o : Option ℕ) (me : ℕ) → same_id o (some me) ≡ true → o ≡ some me
  unfolding same_id
  same_holder none me h = ground arith
  same_holder (some a) me h = ap some (ground arith)

  if-Holds :
      (b : Bool) (me now : ℕ) (x y : Bool × Option Lease)
      → (b ≡ true → x.0 ≡ true → Holds me now x.1)
      → (b ≡ false → y.0 ≡ true → Holds me now y.1)
      → (if b then x else y).0 ≡ true
      → Holds me now (if b then x else y).1
  if-Holds true me now x y h k won = h refl won
  if-Holds false me now x y h k won = k refl won

  winner-Holds :
      (me now : ℕ) (served : Service) (o : Option Lease)
      → (try_acquire_or_renew me own now served o).0 ≡ true
      → Holds me now (try_acquire_or_renew me own now served o).1
  unfolding try_acquire_or_renew new_lease renewed taken_over
  winner-Holds me now served none won = written-Holds me now served _ none (refl, refl, refl) won
  winner-Holds me now served (some l) won =
      if-Holds (same_id l.holder (some me)) me now _ _
        (λ mine. written-Holds me now served _ (some l) (same_holder l.holder me mine, refl, refl))
        (λ other.
          if-Holds (is_expired now own l) me now _ _
            (λ over. written-Holds me now served _ (some l) (refl, refl, refl))
            (λ fresh w. ground arith))
        won

  not_mine :
      (o : Option ℕ) (r me : ℕ) → (r == me) ≡ false → o ≡ some r → same_id o (some me) ≡ false
  unfolding same_id
  not_mine o r me apart h = rw h apart

  limit_lem : (now t : ℕ) → now ≤ t + own → ltb (if own == 0 then own else own) (now - t) ≡ false
  limit_lem now t h = ground arith

  not_over :
      (now t : ℕ) (duration renew acquired : Option ℕ)
      → duration ≡ some own
      → renew ≡ some t
      → now ≤ t + own
      → older now (or_own duration own) (last_seen renew acquired) ≡ false
  not_over now t duration renew acquired d r h = rw (d, r) (limit_lem now t h)

  -- Nobody else takes a Lease that is not over.
  others_keep :
      (me r t now : ℕ) (served : Service) (o : Option Lease)
      → (r == me) ≡ false
      → Holds r t o
      → now ≤ t + own
      → (try_acquire_or_renew me own now served o).1 ≡ o
  unfolding try_acquire_or_renew is_expired
  others_keep me r t now served none apart h fresh = ground arith
  others_keep me r t now served (some l) apart h fresh =
      second (same_id l.holder (some me)) _ _ _ _ (not_mine l.holder r me apart h.0)
        (not_over now t l.duration l.renew_time l.acquire_time h.2 h.1 fresh)
    where
      second :
          (a b : Bool) (x y : Bool × Option Lease) (o : Option Lease)
          → a ≡ false
          → b ≡ false
          → (if a then x else if b then y else (false, o)).1 ≡ o
      second true b x y o h k = ground arith
      second false true x y o h k = ground arith
      second false false x y o h k = refl

  others_stay :
      (me r t : ℕ) (served : Bool) (o : Option Lease)
      → (r == me) ≡ false
      → Holds r t o
      → release me served o ≡ o
  unfolding release
  others_stay me r t served none apart h = ground arith
  others_stay me r t served (some l) apart h = rw (not_mine l.holder r me apart h.0) refl

  claim_now : (won : Bool) (now t : ℕ) → claim_of won now ≡ some t → (won ≡ true) × (now ≡ t)
  claim_now true now t h = (refl, ground arith)
  claim_now false now t h = ground arith

  own_claim :
      (b : Bool) (c x : Option ℕ) (t : ℕ) → b ≡ true → (if b then c else x) ≡ some t → c ≡ some t
  own_claim true c x t h e = e
  own_claim false c x t h e = ground arith

  others_claim :
      (b : Bool) (c x : Option ℕ) (t : ℕ) → b ≡ false → (if b then c else x) ≡ some t → x ≡ some t
  others_claim true c x t h e = ground arith
  others_claim false c x t h e = e

  eq_of : (a b : ℕ) → (a == b) ≡ true → b ≡ a
  eq_of a b h = ground arith

  attempt-Led : (me : ℕ) (served : Service) (s : Replicas) → Led s → Led (attempt own me served s)
  unfolding attempt
  attempt-Led me served s h = record {
    led = λ r t claims fresh.
        let result = try_acquire_or_renew me own s.clock served s.lease in
        elim (Bool-cases (r == me)) [
          | inl mine ↦
              let won =
                claim_now result.0 s.clock t (own_claim (r == me) _ (s.leading r) t mine claims) in
              subst (λ x. Holds x t result.1) (eq_of r me mine)
                (subst (λ x. Holds me x result.1) won.1
                  (winner-Holds me s.clock served s.lease won.0))
          | inr apart ↦
              let holds = h.led r t (others_claim (r == me) _ (s.leading r) t apart claims) fresh in
              subst (Holds r t) (sym (others_keep me r t s.clock served s.lease apart holds fresh))
                holds
        ];
  }

  if_same : (b : Bool) (x y : Option Lease) → x ≡ y → (if b then x else y) ≡ y
  if_same true x y h = h
  if_same false x y h = refl

  no_claim :
      (b : Bool) (x : Option ℕ) (t : ℕ) → b ≡ true → (if b then none else x) ≡ some t → false ≡ true
  no_claim true x t h e = ground arith
  no_claim false x t h e = h

  resign-Led : (me : ℕ) (served : Bool) (s : Replicas) → Led s → Led (resign me served s)
  unfolding resign
  resign-Led me served s h = record {
    led = λ r t claims fresh. elim (Bool-cases (r == me)) [
      | inl mine ↦ absurd_of (no_claim (r == me) (s.leading r) t mine claims)
      | inr apart ↦
          let holds = h.led r t (others_claim (r == me) none (s.leading r) t apart claims) fresh in
          subst (Holds r t)
            (sym (
              if_same (is_some (s.leading me)) _ s.lease
                (others_stay me r t served s.lease apart holds)))
            holds
    ];
  }

  start : (s : Replicas) → ((r : ℕ) → s.leading r ≡ none) → Led s
  start s nobody = record {
    led = λ r t claims fresh. absurd_of (none-some t (sym (nobody r) ∙ claims));
  }

  step-Led : (s u : Replicas) → Led s → Step own s u → Led u
  step-Led _ _ h (tick n s) = record {
    led = λ r t claims fresh. h.led r t claims (omega (arith, fresh));
  }
  step-Led _ _ h (try me served s) = attempt-Led me served s h
  step-Led _ _ h (stop me served s) = resign-Led me served s h

  steps-Led : (s u : Replicas) → Led s → Steps own s u → Led u
  steps-Led _ _ h (none_yet s) = h
  steps-Led s u h (then_one {t} before now) = step-Led t u (steps-Led s t h before) now

  same_lease : (a b t u : ℕ) (o : Option Lease) → Holds a t o → Holds b u o → a ≡ b
  same_lease a b t u none h k = ground arith
  same_lease a b t u (some l) h k = ground (arith, h.0, k.0)

  -- From a start at which no replica leads, whatever the replicas do and in whatever order, and however
  -- the cluster serves them: two replicas that lead, each within one lease duration of the attempt by
  -- which it last became or stayed the leader, are the same replica.
  pub one_leader :
      (s u : Replicas)
      → ((r : ℕ) → s.leading r ≡ none)
      → Steps own s u
      → (a b t t' : ℕ) → u.leading a ≡ some t
      → u.leading b ≡ some t'
      → u.clock ≤ t + own
      → u.clock ≤ t' + own
      → a ≡ b
  one_leader s u nobody run a b t t' la lb fa fb =
      let inv = steps-Led s u (start s nobody) run in
      same_lease a b t t' u.lease (inv.led a t la fa) (inv.led b t' lb fb)
