-- ===== src/Api/Ensures.antt =====
-- What holds whenever a chain of checks of the API lets something through: a rule for each form of check.
use ship_zen_gcp.Prelude.{ℕ, if◌then◌else◌, ◌≡◌, refl, Bool, true, false, Option, none, some}
use ship_zen_gcp.Api.Store.{Reply, ok, http, ◌>>=◌, ◌>>◌, guard, required}

abbrev pub OnOk : {A : Type 0} → (A → Type 0) → Reply A → Type 0
OnOk Q (ok a) = Q a
OnOk Q (http n) = Unit

pub record Ensures {A : Type 0} (Q : A → Type 0) (r : Reply A) : Type 0 where
  pub holds : OnOk Q r

module _ {A : Type 0} {Q : A → Type 0} where
  pub by_ok : (a : A) → Q a → Ensures Q (ok a)
  by_ok a q = record { holds = q }

  pub by_guard :
      (b : Bool) (n : ℕ) (m : Reply A) → (b ≡ true → Ensures Q m) → Ensures Q (guard b n >> m)
  unfolding guard ◌>>◌
  by_guard true n m k = k refl
  by_guard false n m k = record { holds = tt }

  pub by_bind :
      {B : Type 0} (r : Reply B) (f : B → Reply A)
      → ((b : B) → Ensures Q (f b))
      → Ensures Q (r >>= f)
  unfolding ◌>>=◌
  by_bind (ok b) f k = k b
  by_bind (http n) f k = record { holds = tt }

  pub by_required :
      {B : Type 0} (o : Option B) (n : ℕ) (f : B → Reply A)
      → ((b : B) → o ≡ some b → Ensures Q (f b))
      → Ensures Q (required o n >>= f)
  unfolding ◌>>=◌
  by_required none n f k = record { holds = tt }
  by_required (some b) n f k = k b refl

  -- A value that is required of a required value.
  pub by_nested :
      {B C : Type 0} (o : Option B) (n m : ℕ) (g : B → Option C) (f : C → Reply A)
      → ((b : B) (c : C) → o ≡ some b → g b ≡ some c → Ensures Q (f c))
      → Ensures Q ((required o n >>= λ b. required (g b) m) >>= f)
  unfolding ◌>>=◌
  by_nested none n m g f k = record { holds = tt }
  by_nested (some b) n m g f k = by_required (g b) m f (λ c h. k b c refl h)

  pub by_check :
      {R : Type 0} (r : Reply (Unit {0})) (m : Reply A)
      → Ensures (λ _. R) r
      → (R → Ensures Q m)
      → Ensures Q (r >> m)
  unfolding ◌>>◌
  by_check (ok u) m h k = k h.holds
  by_check (http n) m h k = record { holds = tt }

  pub by_any : (r : Reply (Unit {0})) (m : Reply A) → Ensures Q m → Ensures Q (r >> m)
  unfolding ◌>>◌
  by_any (ok u) m k = k
  by_any (http n) m k = record { holds = tt }

  pub by_if :
      (b : Bool) (m n : Reply A)
      → (b ≡ true → Ensures Q m)
      → Ensures Q n
      → Ensures Q (if b then m else n)
  by_if true m n h k = h refl
  by_if false m n h k = k

pub last_guard : {R : Type 0} (b : Bool) (n : ℕ) → (b ≡ true → R) → Ensures (λ _. R) (guard b n)
unfolding guard
last_guard true n k = record { holds = k refl }
last_guard false n k = record { holds = tt }
