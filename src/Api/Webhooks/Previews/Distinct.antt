-- ===== src/Api/Webhooks/Previews/Distinct.antt =====
-- Counting distinct numbers.
use ship_zen_gcp.Prelude.{
  ℕ, suc, ◌+◌, ◌≤◌, ◌≡◌, refl, Bool, true, false, not, ◌&&◌, List, [], ◌∷◌, ◌++◌, any, filter, ◌==◌,
  if◌then◌else◌, Bool-cases, inl, inr, arith,
}
use ship_zen_gcp.Api.Webhooks.Previews.{other_number, count_distinct}

abbrev pub has : ℕ → List ℕ → Bool
has k ms = any (λ j. j == k) ms

abbrev pub without : ℕ → List ℕ → List ℕ
without n ms = filter (other_number n) ms

has-without : (k n : ℕ) (ms : List ℕ) → has k (without n ms) ≡ (has k ms && not (k == n))
has-without k n [] = refl
has-without k n (m ∷ ms) = ground (arith, has-without k n ms)

without-absent : (n : ℕ) (ms : List ℕ) → has n ms ≡ false → without n ms ≡ ms
without-absent n [] h = refl
without-absent n (m ∷ ms) h = ground (arith, without-absent n ms)

-- A number counts once.
pub count_distinct-without :
    (n : ℕ) (ms : List ℕ)
    → count_distinct ms ≡ (if has n ms then 1 else 0) + count_distinct (without n ms)
unfolding count_distinct
count_distinct-without n [] = refl
count_distinct-without n (m ∷ ms) =
    ground (arith, count_distinct-without n ms, without-absent n ms, has-without m n ms)

pub without-snoc : (n : ℕ) (ms : List ℕ) → without n (ms ++ n ∷ []) ≡ without n ms
without-snoc n [] = ground arith
without-snoc n (m ∷ ms) = ground (arith, without-snoc n ms)

-- At most one more once `n` has come.
pub count_distinct-snoc :
    (n : ℕ) (ms : List ℕ) → count_distinct (ms ++ n ∷ []) ≤ suc (count_distinct (without n ms))
count_distinct-snoc n ms =
    ground (arith, count_distinct-without n (ms ++ n ∷ []), without-snoc n ms)

-- Fewer numbers, fewer distinct ones.
pub count_distinct_mono :
    (xs ys : List ℕ)
    → ((k : ℕ) → has k xs ≡ true → has k ys ≡ true)
    → count_distinct xs ≤ count_distinct ys
unfolding count_distinct
count_distinct_mono [] ys h = omega arith
count_distinct_mono (x ∷ xs) ys h = elim (Bool-cases (has x xs)) [
  | inl e ↦ rw e (omega (arith, count_distinct_mono xs ys (λ k m. h k (or_later k m))))
  | inr e ↦ ground (
    arith,
    h x (here x),
    count_distinct-without x ys,
    count_distinct_mono xs (without x ys) (λ k m. apart k m e),
  )
]
  where
    here : (k : ℕ) → has k (k ∷ xs) ≡ true
    here k = ground arith

    or_later : (k : ℕ) → has k xs ≡ true → has k (x ∷ xs) ≡ true
    or_later k m = ground arith

    apart : (k : ℕ) → has k xs ≡ true → has x xs ≡ false → has k (without x ys) ≡ true
    apart k m e = ground (arith, has-without k x ys, h k (or_later k m))
