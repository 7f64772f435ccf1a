-- ===== src/Prelude/Texts.antt =====
-- Texts that the program walks or slices, as the list of their code points, with the operations of
-- Python's `str` that it uses.
use Prim.Native.Char.{code}
use Prim.Native.Nat.{ℕ, ◌+◌}
use Prim.Native.String.{String}
use mathlib.Core.Path.{◌≡◌, refl}
use mathlib.Core.Bool.{Bool, true, false, ◌&&◌, ◌||◌}
use mathlib.Core.List.{List, [], ◌∷◌}
use native.Mathlib.Omega.{arith}
use ship_zen_gcp.Prelude.Lists.{all}
use ship_zen_gcp.Prelude.Tests.{◌==◌, leb, if◌then◌else◌}

abbrev pub Text : Type 0
Text = List ℕ

abbrev pub codes : String → Text
codes String.[] = []
codes (String.◌∷◌ c s) = code c ∷ codes s

-- `s == t`
abbrev pub text_eq : Text → Text → Bool
text_eq [] [] = true
text_eq [] (y ∷ ys) = false
text_eq (x ∷ xs) [] = false
text_eq (x ∷ xs) (y ∷ ys) = x == y && text_eq xs ys

pub text_eq_refl : (s : Text) → text_eq s s ≡ true
text_eq_refl [] = refl
text_eq_refl (x ∷ xs) = ground (arith, text_eq_refl xs)

pub text_eq→eq : (s t : Text) → text_eq s t ≡ true → s ≡ t
text_eq→eq [] [] h = refl
text_eq→eq [] (y ∷ ys) h = ground arith
text_eq→eq (x ∷ xs) [] h = ground arith
text_eq→eq (x ∷ xs) (y ∷ ys) h = ground (arith, text_eq→eq xs ys)

pub eq_sym : (a b : ℕ) → (a == b) ≡ (b == a)
eq_sym a b = ground arith

pub text_eq_sym : (s t : Text) → text_eq s t ≡ text_eq t s
text_eq_sym [] [] = refl
text_eq_sym [] (c ∷ cs) = refl
text_eq_sym (c ∷ cs) [] = refl
text_eq_sym (c ∷ cs) (d ∷ ds) = rw (eq_sym c d, text_eq_sym cs ds) refl

-- White space of `s.strip()`, and the strip without it at the front and at the end.
abbrev pub is_space : ℕ → Bool
is_space c =
    leb 9 c && leb c 13
    || leb 28 c && leb c 32
    || c == 133
    || c == 160
    || c == 5760
    || leb 8192 c && leb c 8202
    || c == 8232
    || c == 8233
    || c == 8239
    || c == 8287
    || c == 12288

abbrev pub drop_spaces : Text → Text
drop_spaces [] = []
drop_spaces (c ∷ cs) = let rest = drop_spaces cs in if is_space c then rest else c ∷ cs

abbrev pub cons_unless_space : ℕ → Text → Text
cons_unless_space c [] = if is_space c then [] else c ∷ []
cons_unless_space c (d ∷ ds) = c ∷ d ∷ ds

abbrev pub drop_last_spaces : Text → Text
drop_last_spaces [] = []
drop_last_spaces (c ∷ cs) = cons_unless_space c (drop_last_spaces cs)

-- `s.startswith(p)`, with the prefix first.
abbrev pub starts_with : Text → Text → Bool
starts_with [] s = true
starts_with (p ∷ ps) [] = false
starts_with (p ∷ ps) (c ∷ cs) = p == c && starts_with ps cs

-- `s.lstrip(c)`, `s.rstrip(c)` and `s.strip(c)`
unfoldable pub lstrip : ℕ → Text → Text
lstrip c [] = []
lstrip c (x ∷ xs) = let rest = lstrip c xs in if x == c then rest else x ∷ xs

abbrev pub cons_kept : ℕ → ℕ → Text → Text
cons_kept c x [] = if x == c then [] else x ∷ []
cons_kept c x (y ∷ ys) = x ∷ y ∷ ys

unfoldable pub rstrip : ℕ → Text → Text
rstrip c [] = []
rstrip c (x ∷ xs) = cons_kept c x (rstrip c xs)

unfoldable pub strip : ℕ → Text → Text
strip c s = rstrip c (lstrip c s)

module _ (p : ℕ → Bool) (d : ℕ) where
  all-lstrip : (s : Text) → all p s ≡ true → all p (lstrip d s) ≡ true
  unfolding lstrip
  all-lstrip [] h = refl
  all-lstrip (c ∷ cs) h = ground (arith, all-lstrip cs)

  pub all-rstrip : (s : Text) → all p s ≡ true → all p (rstrip d s) ≡ true
  unfolding rstrip
  all-rstrip [] h = refl
  all-rstrip (c ∷ cs) h = ground (arith, all-rstrip cs)

  pub all-strip : (s : Text) → all p s ≡ true → all p (strip d s) ≡ true
  unfolding strip
  all-strip s h = all-rstrip (lstrip d s) (all-lstrip s h)

-- `s.split(c)`, never empty.
abbrev pub add_to_head : ℕ → List Text → List Text
add_to_head c [] = (c ∷ []) ∷ []
add_to_head c (w ∷ ws) = (c ∷ w) ∷ ws

unfoldable pub split : ℕ → Text → List Text
split c [] = [] ∷ []
split c (x ∷ xs) = let rest = split c xs in if x == c then [] ∷ rest else add_to_head x rest

-- `[a-z]`, `[0-9]`, `[a-z0-9]`, `[A-Z]`
abbrev pub is_lower : ℕ → Bool
is_lower c = leb b'a' c && leb c b'z'

abbrev pub is_digit : ℕ → Bool
is_digit c = leb b'0' c && leb c b'9'

abbrev pub is_upper : ℕ → Bool
is_upper c = leb b'A' c && leb c b'Z'

abbrev pub is_lower_alnum : ℕ → Bool
is_lower_alnum c = is_lower c || is_digit c

abbrev pub is_alnum : ℕ → Bool
is_alnum c = is_lower c || is_upper c || is_digit c

-- `s.removesuffix(suffix)`
unfoldable pub remove_suffix : Text → Text → Text
remove_suffix suffix [] = []
remove_suffix suffix (c ∷ cs) =
    let rest = remove_suffix suffix cs in if text_eq (c ∷ cs) suffix then [] else c ∷ rest

-- `s.lower()` of an ASCII text.
unfoldable pub lower_ascii : Text → Text
lower_ascii [] = []
lower_ascii (c ∷ cs) = (if is_upper c then c + 32 else c) ∷ lower_ascii cs
