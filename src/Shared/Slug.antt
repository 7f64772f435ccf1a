-- ===== src/Shared/Slug.antt =====
-- controller/main.py: `_k8s_slug`, which turns a project's name into part of a DNS label.
pub mod Shape
use ship_zen_gcp.Prelude.{
  ℕ, ◌+◌, Bool, true, false, not, List, [], ◌∷◌, ◌++◌, Text, Option, none, some, codes, strip, take,
  is_lower_alnum, is_upper, ◌==◌, if◌then◌else◌,
}

-- `str.lower()` of one code point, exact where the result holds an ASCII character: besides A-Z
-- only U+0130 (to `i` and U+0307) and U+212A (to `k`) have one. Every other code point keeps its
-- class under lower(): not in `[a-z0-9]`.
lower_char : ℕ → Text
lower_char c =
    if is_upper c
    then (c + 32) ∷ []
    else if c == 0x130
    then b'i' ∷ 0x307 ∷ []
    else if c == 0x212a
    then b'k' ∷ []
    else c ∷ []

unfoldable pub lower : Text → Text
unfolding lower_char
lower [] = []
lower (c ∷ cs) = lower_char c ++ lower cs

-- `re.sub(r"[^a-z0-9]+", "-", s)`: one hyphen for each run; the flag says that the run has begun.
collapse : Bool → Text → Text
collapse in_run [] = []
collapse in_run (c ∷ cs) =
    let rest = collapse (not (is_lower_alnum c)) cs in
    if is_lower_alnum c then c ∷ rest else if in_run then rest else b'-' ∷ rest

-- `s or "app"`
or_app : Text → Text
or_app [] = codes "app"
or_app (c ∷ cs) = c ∷ cs

text_of : Option Text → Text
text_of none = []
text_of (some s) = s

unfoldable pub k8s_slug : ℕ → Option Text → Text
unfolding text_of lower collapse or_app
k8s_slug max_len value =
    or_app (strip b'-' (take max_len (strip b'-' (collapse false (lower (text_of value))))))
