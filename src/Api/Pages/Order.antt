-- ===== src/Api/Pages/Order.antt =====
-- The order of the rows, and what is below one of them.
use ship_zen_gcp.Prelude.{
  ◌≡◌, refl, ap, ◌∙◌, Bool, true, false, not, ◌&&◌, ◌||◌, List, [], ◌∷◌, ◌++◌, filter, all, any,
  ◌==◌, arith, Bool-cases, inl, inr, and_true,
}
use ship_zen_gcp.Database.{Deployment}
use ship_zen_gcp.Api.Pages.{row_key, is_below, put_latest, latest_first}

-- Strictly descending.
abbrev pub descends : List Deployment → Bool
descends [] = true
descends (d ∷ ds) = all (is_below (row_key d)) ds && descends ds

abbrev pub ids_distinct : List Deployment → Bool
ids_distinct [] = true
ids_distinct (d ∷ ds) = not (any (λ e. e.id == d.id) ds) && ids_distinct ds

all-put_latest :
    (p : Deployment → Bool) (d : Deployment) (es : List Deployment)
    → all p (put_latest d es) ≡ (p d && all p es)
all-put_latest p d [] = ground arith
all-put_latest p d (e ∷ es) = ground (arith, all-put_latest p d es)

any-put_latest :
    (p : Deployment → Bool) (d : Deployment) (es : List Deployment)
    → any p (put_latest d es) ≡ (p d || any p es)
any-put_latest p d [] = ground arith
any-put_latest p d (e ∷ es) = ground (arith, any-put_latest p d es)

any-latest_first :
    (p : Deployment → Bool) (ds : List Deployment) → any p (latest_first ds) ≡ any p ds
any-latest_first p [] = refl
any-latest_first p (d ∷ ds) =
    ground (arith, any-put_latest p d (latest_first ds), any-latest_first p ds)

all_below :
    (d e : Deployment) (es : List Deployment)
    → is_below (row_key d) e ≡ true
    → all (is_below (row_key e)) es ≡ true
    → all (is_below (row_key d)) es ≡ true
all_below d e [] h a = refl
all_below d e (f ∷ es) h a = ground (arith, h, a, all_below d e es)

below_or :
    (d e : Deployment)
    → is_below (row_key d) e ≡ false
    → (e.id == d.id) ≡ false
    → is_below (row_key e) d ≡ true
below_or d e h k = ground (arith, h, k)

descends-put_latest :
    (d : Deployment) (es : List Deployment)
    → descends es ≡ true
    → any (λ e. e.id == d.id) es ≡ false
    → descends (put_latest d es) ≡ true
descends-put_latest d [] h k = refl
descends-put_latest d (e ∷ es) h k = elim (Bool-cases (is_below (row_key d) e)) [
  | inl b ↦ rw b (ground (arith, h, b, all_below d e es))
  | inr b ↦ rw b (
      ground (
        arith,
        h,
        k,
        below_or d e b,
        all-put_latest (is_below (row_key e)) d es,
        descends-put_latest d es,
      ))
]

pub descends-latest_first :
    (ds : List Deployment) → ids_distinct ds ≡ true → descends (latest_first ds) ≡ true
descends-latest_first [] h = refl
descends-latest_first (d ∷ ds) h =
    descends-put_latest d (latest_first ds) (descends-latest_first ds (ground (arith, h)))
      (any-latest_first (λ e. e.id == d.id) ds ∙ ground (arith, h))

any-filter :
    (p q : Deployment → Bool) (ds : List Deployment)
    → any p ds ≡ false
    → any p (filter q ds) ≡ false
any-filter p q [] h = refl
any-filter p q (d ∷ ds) h = ground (arith, any-filter p q ds)

pub ids_distinct-filter :
    (q : Deployment → Bool) (ds : List Deployment)
    → ids_distinct ds ≡ true
    → ids_distinct (filter q ds) ≡ true
ids_distinct-filter q [] h = refl
ids_distinct-filter q (d ∷ ds) h =
    ground (arith, ids_distinct-filter q ds, any-filter (λ e. e.id == d.id) q ds)

filter-all : (p : Deployment → Bool) (ds : List Deployment) → all p ds ≡ true → filter p ds ≡ ds
filter-all p [] h = refl
filter-all p (d ∷ ds) h =
    rw (and_true (p d) _ h).0 (ap (λ es. d ∷ es) (filter-all p ds (and_true (p d) _ h).1))

not_below : (d e : Deployment) → is_below (row_key d) e ≡ true → is_below (row_key e) d ≡ false
not_below d e h = ground (arith, h)

all-middle :
    (p : Deployment → Bool) (cs : List Deployment) (d : Deployment) (ds : List Deployment)
    → all p (cs ++ d ∷ ds) ≡ true
    → p d ≡ true
all-middle p [] d ds h = ground (arith, h)
all-middle p (c ∷ cs) d ds h = ground (arith, h, all-middle p cs d ds)

-- The rows below one of them are those behind it.
pub cut :
    (cs : List Deployment) (d : Deployment) (ds : List Deployment)
    → descends (cs ++ d ∷ ds) ≡ true
    → filter (is_below (row_key d)) (cs ++ d ∷ ds) ≡ ds
cut [] d ds h =
    rw (irrefl d)
      (filter-all (is_below (row_key d)) ds (and_true (all (is_below (row_key d)) ds) _ h).0)
  where
    irrefl : (e : Deployment) → is_below (row_key e) e ≡ false
    irrefl e = ground arith
cut (c ∷ cs) d ds h =
    rw (not_below c d (all-middle (is_below (row_key c)) cs d ds (ground (arith, h))))
      (cut cs d ds (ground (arith, h)))
