-- ===== src/Shared/Slug/Shape.antt =====
-- What a slug looks like, whatever the name: a DNS label of bounded length.
use ship_zen_gcp.Prelude.{
  ℕ, ◌≤◌, ◌≡◌, refl, Bool, true, false, not, ◌&&◌, ◌||◌, [], ◌∷◌, Text, Option, strip, lstrip,
  rstrip, take, all, all-take, all-strip, length, length-take, is_lower_alnum, ◌==◌, arith,
}
use ship_zen_gcp.Shared.Slug.{lower, collapse, or_app, text_of, k8s_slug}

abbrev pub is_label_char : ℕ → Bool
is_label_char c = is_lower_alnum c || c == b'-'

-- The first, and the last, character is there and is no hyphen.
abbrev pub starts_well : Text → Bool
starts_well [] = false
starts_well (c ∷ cs) = not (c == b'-')

abbrev pub ends_well : Text → Bool
ends_well [] = false
ends_well (c ∷ []) = not (c == b'-')
ends_well (c ∷ d ∷ cs) = ends_well (d ∷ cs)

pub record IsLabel (s : Text) : Type 0 where
  pub chars : all is_label_char s ≡ true
  pub starts : starts_well s ≡ true
  pub ends : ends_well s ≡ true

abbrev is_empty : Text → Bool
is_empty [] = true
is_empty (c ∷ cs) = false

collapse-chars : (b : Bool) (s : Text) → all is_label_char (collapse b s) ≡ true
unfolding collapse
collapse-chars b [] = refl
collapse-chars b (c ∷ cs) = ground (arith, collapse-chars (not (is_lower_alnum c)) cs)

length-lstrip : (s : Text) → length (lstrip b'-' s) ≤ length s
unfolding lstrip
length-lstrip [] = omega arith
length-lstrip (c ∷ cs) = ground (arith, length-lstrip cs)

length-rstrip : (s : Text) → length (rstrip b'-' s) ≤ length s
unfolding rstrip
length-rstrip [] = omega arith
length-rstrip (c ∷ cs) = ground (arith, length-rstrip cs)

length-strip : (s : Text) → length (strip b'-' s) ≤ length s
unfolding strip
length-strip s = omega (arith, length-rstrip (lstrip b'-' s), length-lstrip s)

lstrip-starts : (s : Text) → is_empty (lstrip b'-' s) || starts_well (lstrip b'-' s) ≡ true
unfolding lstrip
lstrip-starts [] = refl
lstrip-starts (c ∷ cs) = ground (arith, lstrip-starts cs)

rstrip-starts : (s : Text) → starts_well s ≡ true → starts_well (rstrip b'-' s) ≡ true
unfolding rstrip
rstrip-starts [] h = h
rstrip-starts (c ∷ cs) h = ground arith

rstrip-empty : (s : Text) → is_empty s ≡ true → is_empty (rstrip b'-' s) ≡ true
unfolding rstrip
rstrip-empty [] h = h
rstrip-empty (c ∷ cs) h = ground arith

rstrip-ends : (s : Text) → is_empty (rstrip b'-' s) || ends_well (rstrip b'-' s) ≡ true
unfolding rstrip
rstrip-ends [] = refl
rstrip-ends (c ∷ cs) = ground (arith, rstrip-ends cs)

strip-shape :
    (s : Text)
    → is_empty (strip b'-' s) || (starts_well (strip b'-' s) && ends_well (strip b'-' s)) ≡ true
unfolding strip
strip-shape s = ground (
  arith,
  lstrip-starts s,
  rstrip-empty (lstrip b'-' s),
  rstrip-starts (lstrip b'-' s),
  rstrip-ends (lstrip b'-' s),
)

IsLabel-or_app :
    (s : Text)
    → all is_label_char s ≡ true
    → is_empty s || (starts_well s && ends_well s) ≡ true
    → IsLabel (or_app s)
unfolding or_app
IsLabel-or_app [] h k = record { chars = refl; starts = refl; ends = refl }
IsLabel-or_app (c ∷ cs) h k = ground arith

-- Whatever the project is called, and if it has no name, its slug is a DNS label: it has at least one
-- character, holds only lower-case ASCII letters, digits and hyphens, and neither starts nor ends
-- with a hyphen.
pub k8s_slug-IsLabel : (max_len : ℕ) (name : Option Text) → IsLabel (k8s_slug max_len name)
unfolding k8s_slug
k8s_slug-IsLabel n name =
    let runs = collapse false (lower (text_of name)) in
    let cut = take n (strip b'-' runs) in
    IsLabel-or_app (strip b'-' cut)
      (all-strip is_label_char b'-' cut (
        all-take is_label_char n (strip b'-' runs)
          (all-strip is_label_char b'-' runs (collapse-chars false (lower (text_of name))))))
      (strip-shape cut)

length-or_app : (s : Text) (n : ℕ) → 3 ≤ n → length s ≤ n → length (or_app s) ≤ n
unfolding or_app
length-or_app [] n h k = h
length-or_app (c ∷ cs) n h k = k

-- A slug is at most `max_len` long, for every limit that leaves room for the fallback "app".
pub length-k8s_slug :
    (max_len : ℕ) (name : Option Text) → 3 ≤ max_len → length (k8s_slug max_len name) ≤ max_len
unfolding k8s_slug
length-k8s_slug n name h =
    let kept = strip b'-' (collapse false (lower (text_of name))) in
    length-or_app (strip b'-' (take n kept)) n h
      (omega (arith, length-strip (take n kept), length-take n kept))
