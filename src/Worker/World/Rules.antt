-- ===== src/Worker/World/Rules.antt =====
-- Reasoning about the worker's actions: from a world that meets `P`, an action ends in a world that
-- meets `Q` of its result, or `E` if it raises. One rule for each way to build an action.
use ship_zen_gcp.Prelude.{◌≡◌, refl, Bool, true, false, if◌then◌else◌}
use ship_zen_gcp.Worker.World.{
  Exn, World, Out, ok, raised, M, pure, raise, modify, gets, ◌>>=◌, catch, finally, when, require,
  swallow, continue, handled,
}

abbrev pub Holds : {A : Type 0} → (A → World → Type 0) → (World → Type 0) → Out A → World → Type 0
Holds Q E (ok a) w = Q a w
Holds Q E (raised e) w = E w

pub record Triple {A : Type 0} (P : World → Type 0) (m : M A) (Q : A → World → Type 0)
    (E : World → Type 0) : Type 0 where
  pub run : (w : World) → P w → Holds Q E (m w).0 (m w).1

-- `P` holds after the action if it held before, whether it raises or not.
abbrev pub Keeps : {A : Type 0} → (World → Type 0) → M A → Type 0
Keeps P m = Triple P m (λ _. P) P

module _ {A : Type 0} {P : World → Type 0} where
  pub Keeps-pure : (a : A) → Keeps P (pure a)
  unfolding pure
  Keeps-pure a = record { run = λ w h. h }

  pub Keeps-raise : (e : Exn) → Keeps P (raise {A = A} e)
  unfolding raise
  Keeps-raise e = record { run = λ w h. h }

  pub Keeps-gets : (f : World → A) → Keeps P (gets f)
  unfolding gets
  Keeps-gets f = record { run = λ w h. h }

  pub Keeps-if : (b : Bool) (m n : M A) → Keeps P m → Keeps P n → Keeps P (if b then m else n)
  Keeps-if true m n km kn = km
  Keeps-if false m n km kn = kn

module _ {P : World → Type 0} where
  pub Keeps-modify : (f : World → World) → ((w : World) → P w → P (f w)) → Keeps P (modify f)
  unfolding modify
  Keeps-modify f h = record { run = h }

  pub Keeps-when : (b : Bool) (m : M Unit) → Keeps P m → Keeps P (when b m)
  Keeps-when true m k = k
  Keeps-when false m k = Keeps-pure tt

  pub Keeps-require : (b : Bool) (e : Exn) → Keeps P (require b e)
  Keeps-require true e = Keeps-pure tt
  Keeps-require false e = Keeps-raise e

module _ {A B : Type 0} {Q : B → World → Type 0} {E : World → Type 0} where
  continue-Holds :
      (R : A → World → Type 0) (r : Out A) (f : A → M B) (w : World)
      → ((a : A) → Triple (R a) (f a) Q E)
      → Holds R E r w
      → Holds Q E (continue r f w).0 (continue r f w).1
  continue-Holds R (ok a) f w k h = (k a).run w h
  continue-Holds R (raised e) f w k h = h

  pub Triple-bind :
      {P : World → Type 0} (R : A → World → Type 0) (m : M A) (f : A → M B)
      → Triple P m R E
      → ((a : A) → Triple (R a) (f a) Q E)
      → Triple P (m >>= f) Q E
  unfolding ◌>>=◌
  Triple-bind R m f t k = record { run = λ w h. continue-Holds R (m w).0 f (m w).1 k (t.run w h) }

module _ {A : Type 0} {Q : A → World → Type 0} {E : World → Type 0} where
  handled-Holds :
      (F : World → Type 0) (r : Out A) (g : Exn → M A) (w : World)
      → ((e : Exn) → Triple F (g e) Q E)
      → Holds Q F r w
      → Holds Q E (handled r g w).0 (handled r g w).1
  handled-Holds F (ok a) g w k h = h
  handled-Holds F (raised e) g w k h = (k e).run w h

  pub Triple-catch :
      {P : World → Type 0} (F : World → Type 0) (m : M A) (g : Exn → M A)
      → Triple P m Q F
      → ((e : Exn) → Triple F (g e) Q E)
      → Triple P (catch m g) Q E
  unfolding catch
  Triple-catch F m g t k = record { run = λ w h. handled-Holds F (m w).0 g (m w).1 k (t.run w h) }

module _ {A : Type 0} where
  Holds-weaken :
      (Q Q' : A → World → Type 0) (E E' : World → Type 0) (r : Out A) (w w' : World)
      → ((a : A) → Q a w → Q' a w')
      → (E w → E' w')
      → Holds Q E r w
      → Holds Q' E' r w'
  Holds-weaken Q Q' E E' (ok a) w w' q e h = q a h
  Holds-weaken Q Q' E E' (raised x) w w' q e h = e h

  pub Triple-finally :
      {P : World → Type 0} {Q' : A → World → Type 0} {E' : World → Type 0} (Q : A → World → Type 0)
      (E : World → Type 0) (m : M A) (f : World → World)
      → Triple P m Q E
      → ((a : A) (w : World) → Q a w → Q' a (f w))
      → ((w : World) → E w → E' (f w))
      → Triple P (finally m f) Q' E'
  unfolding finally
  Triple-finally {Q'} {E'} Q E m f t q e = record {
    run = λ w h.
        Holds-weaken Q Q' E E' (m w).0 (m w).1 (f (m w).1) (λ a. q a (m w).1) (e (m w).1)
          (t.run w h);
  }

  pub Triple-weaken :
      {P P' : World → Type 0} {Q Q' : A → World → Type 0} {E E' : World → Type 0} (m : M A)
      → Triple P m Q E
      → ((w : World) → P' w → P w)
      → ((a : A) (w : World) → Q a w → Q' a w)
      → ((w : World) → E w → E' w)
      → Triple P' m Q' E'
  Triple-weaken {Q} {Q'} {E} {E'} m t p q e = record {
    run = λ w h.
        Holds-weaken Q Q' E E' (m w).0 (m w).1 (m w).1 (λ a. q a (m w).1) (e (m w).1)
          (t.run w (p w h));
  }

  pub Triple-if :
      {P : World → Type 0} {Q : A → World → Type 0} {E : World → Type 0} (b : Bool) (m n : M A)
      → (b ≡ true → Triple P m Q E)
      → (b ≡ false → Triple P n Q E)
      → Triple P (if b then m else n) Q E
  Triple-if true m n km kn = km refl
  Triple-if false m n km kn = kn refl

  -- A test that fails.
  pub Triple-else :
      {P : World → Type 0} {Q : A → World → Type 0} {E : World → Type 0} (b : Bool) (m n : M A)
      → b ≡ false
      → Triple P n Q E
      → Triple P (if b then m else n) Q E
  Triple-else b m n fails k = rw fails k

module _ {A B : Type 0} {P : World → Type 0} where
  pub Keeps-bind :
      (m : M A) (f : A → M B) → Keeps P m → ((a : A) → Keeps P (f a)) → Keeps P (m >>= f)
  Keeps-bind m f km kf = Triple-bind (λ _. P) m f km kf

module _ {A : Type 0} {P : World → Type 0} where
  pub Keeps-catch :
      (m : M A) (g : Exn → M A) → Keeps P m → ((e : Exn) → Keeps P (g e)) → Keeps P (catch m g)
  Keeps-catch m g km kg = Triple-catch P m g km kg

  pub Keeps-finally :
      (m : M A) (f : World → World)
      → Keeps P m
      → ((w : World) → P w → P (f w))
      → Keeps P (finally m f)
  Keeps-finally m f km kf = Triple-finally (λ _. P) P m f km (λ a. kf) kf

module _ {P : World → Type 0} where
  pub Keeps-swallow : (m : M Unit) → Keeps P m → Keeps P (swallow m)
  unfolding swallow
  Keeps-swallow m k = Keeps-catch m (λ e. pure tt) k (λ e. Keeps-pure tt)

pub ruleset keeps_rules = (
  Keeps-pure, Keeps-raise, Keeps-gets, Keeps-if, Keeps-when, Keeps-require, Keeps-bind,
  Keeps-swallow,
)
