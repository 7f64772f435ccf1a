-- ===== src/Shared/Hostnames/Vanity.antt =====
-- What `valid_vanity` accepts, without the regular expression.
use ship_zen_gcp.Prelude.{
  ℕ, suc, ◌+◌, ◌≤◌, ◌≡◌, ◌≢◌, ◌↔◌, refl, Bool, true, false, not, ◌&&◌, ◌||◌, [], ◌∷◌, Text, some,
  all, length, get_elem?, is_lower, is_lower_alnum, leb, ltb, ◌==◌, arith, and_true,
}
use ship_zen_gcp.Shared.Slug.Shape.{is_label_char, ends_well}
use ship_zen_gcp.Shared.Hostnames.{
  vanity_rest, vanity_match, vanity_problem, valid_vanity, is_reserved,
}

-- No two hyphens stand side by side.
abbrev pub single_hyphens : Text → Bool
single_hyphens [] = true
single_hyphens (c ∷ []) = true
single_hyphens (c ∷ d ∷ cs) = not (c == b'-' && d == b'-') && single_hyphens (d ∷ cs)

abbrev pub starts_lower : Text → Bool
starts_lower [] = false
starts_lower (c ∷ cs) = is_lower c

-- "3-40 lowercase letters, digits and single hyphens, starting with a letter and not ending with a
-- hyphen", not reserved, and no hyphen as the 9th character.
pub record IsVanity (name : Text) : Type 0 where
  pub min_length : 3 ≤ length name
  pub max_length : length name ≤ 40
  pub chars : all is_label_char name ≡ true
  pub starts : starts_lower name ≡ true
  pub ends : ends_well name ≡ true
  pub hyphens : single_hyphens name ≡ true
  pub free : is_reserved name ≡ false
  pub ninth : get_elem? name 8 ≢ some b'-'

abbrev rest_spec : ℕ → Text → Bool
rest_spec k cs =
    all is_label_char cs
    && single_hyphens cs
    && ends_well cs
    && leb 2 (k + length cs)
    && leb (k + length cs) 39

alnum_no_hyphen : (c : ℕ) → (is_lower_alnum c && c == b'-') ≡ false
alnum_no_hyphen c = ground arith

-- One round of the group: `a`, `h` and `d` are the tests of the two next characters.
rest_step :
    (a h d all' single ends : Bool) (k m : ℕ)
    → (a && h) ≡ false
    → ((a || (h && not d))
        && ltb k 38
        && (all' && single && ends && leb 2 (k + 1 + suc m) && leb (k + 1 + suc m) 39))
      ≡ (((a || h) && all')
          && (not (h && d) && single)
          && ends
          && leb 2 (k + suc (suc m))
          && leb (k + suc (suc m)) 39)
rest_step a h d all' single ends k m e = ground arith

vanity_rest-eq : (k : ℕ) (cs : Text) → vanity_rest k cs ≡ rest_spec k cs
unfolding vanity_rest
vanity_rest-eq k [] = refl
vanity_rest-eq k (c ∷ []) = ground arith
vanity_rest-eq k (c ∷ d ∷ cs) = rw (vanity_rest-eq (k + 1) (d ∷ cs)) (
    rest_step (is_lower_alnum c) (c == b'-') (d == b'-') (all is_label_char (d ∷ cs))
      (single_hyphens (d ∷ cs)) (ends_well (d ∷ cs)) k (length cs) (alnum_no_hyphen c))

and_parts :
    (l all' single ends : Bool) (m : ℕ)
    → (l && (all' && single && ends && leb 2 (0 + m) && leb (0 + m) 39)) ≡ true
    → (l ≡ true) × (all' ≡ true) × (single ≡ true) × (ends ≡ true) × (2 ≤ m) × (m ≤ 39)
and_parts l all' single ends m h = ground arith

and_of_parts :
    (l all' single ends : Bool) (m : ℕ)
    → l ≡ true
    → all' ≡ true
    → single ≡ true
    → ends ≡ true
    → 3 ≤ suc m
    → suc m ≤ 40
    → (l && (all' && single && ends && leb 2 (0 + m) && leb (0 + m) 39)) ≡ true
and_of_parts l all' single ends m a b c d e f = ground arith

-- The match, with the rounds of the group counted.
match_parts :
    (c d : ℕ) (cs : Text)
    → vanity_match (c ∷ d ∷ cs) ≡ true
    → (is_lower c ≡ true)
      × (all is_label_char (d ∷ cs) ≡ true)
      × (single_hyphens (d ∷ cs) ≡ true)
      × (ends_well (d ∷ cs) ≡ true)
      × (2 ≤ length (d ∷ cs))
      × (length (d ∷ cs) ≤ 39)
unfolding vanity_match
match_parts c d cs h =
    and_parts (is_lower c) (all is_label_char (d ∷ cs)) (single_hyphens (d ∷ cs))
      (ends_well (d ∷ cs)) (length (d ∷ cs)) (rw vanity_rest-eq at h)

match_of_parts : (c d : ℕ) (cs : Text) → IsVanity (c ∷ d ∷ cs) → vanity_match (c ∷ d ∷ cs) ≡ true
unfolding vanity_match
match_of_parts c d cs v = rw vanity_rest-eq (
    and_of_parts (is_lower c) (all is_label_char (d ∷ cs)) (single_hyphens (d ∷ cs))
      (ends_well (d ∷ cs)) (length (d ∷ cs)) v.starts (and_true _ _ v.chars).1
      (and_true _ _ v.hyphens).1 v.ends v.min_length v.max_length)

valid→IsVanity : (name : Text) → valid_vanity (some name) ≡ true → IsVanity name
unfolding valid_vanity vanity_problem
valid→IsVanity [] h = unfold vanity_match in ground arith
valid→IsVanity (c ∷ []) h = unfold vanity_match vanity_rest in ground arith
valid→IsVanity (c ∷ d ∷ cs) h =
    let p = match_parts c d cs (ground arith) in
    record {
      min_length = omega (arith, p);
      max_length = omega (arith, p);
      chars = ground (arith, p.0, p.1);
      starts = p.0;
      ends = p.3;
      hyphens = ground (arith, p.0, p.2);
      free = ground arith;
      ninth = λ e. ground (arith, e);
    }

IsVanity→valid : (name : Text) → IsVanity name → valid_vanity (some name) ≡ true
unfolding valid_vanity vanity_problem
IsVanity→valid [] v = absurd (omega (arith, v.min_length))
IsVanity→valid (c ∷ []) v = absurd (omega (arith, v.min_length))
IsVanity→valid (c ∷ d ∷ cs) v = ground (arith, match_of_parts c d cs v, v.free, v.ninth)

-- A name passes exactly when it has the documented shape, is not reserved, and does not have a hyphen
-- as its 9th character.
pub valid_vanity_iff : (name : Text) → (valid_vanity (some name) ≡ true) ↔ IsVanity name
valid_vanity_iff name = (valid→IsVanity name, IsVanity→valid name)
