-- ===== src/Controller/Vanity/Commits.antt =====
-- What a commit of `commit_manifests_to_git` leaves.
use ship_zen_gcp.Prelude.{
  ◌≡◌, refl, ap, Bool, true, false, ◌&&◌, Text, text_eq→eq, Option, none, some, Bool-cases, inl,
  inr, arith,
}
use ship_zen_gcp.Controller.Vanity.{
  ApiAnswer, served, refused, raising, lost, GithubAnswers, is_unchanged, sent, change_file, looked,
  commit_manifests_to_git,
}

-- A look is served or raises: `commit_manifests_to_git` logs a refusal and returns as if all was done.
abbrev is_told : ApiAnswer → Bool
is_told refused = false
is_told a = true

-- A PUT or DELETE is applied and served, or raises and is not applied.
abbrev noticed : ApiAnswer → Bool
noticed served = true
noticed raising = true
noticed a = false

abbrev is_served : ApiAnswer → Bool
is_served served = true
is_served a = false

abbrev pub tells : GithubAnswers → Bool
tells g = g.token && is_told g.reading && noticed g.change

abbrev pub works : GithubAnswers → Bool
works g = g.token && is_served g.reading && is_served g.change

-- What a commit leaves.
abbrev pub Committed : Option Text → Option Text → Bool × Option Text → Type 0
Committed content file (true, after) = after ≡ file
Committed content file (false, after) = after ≡ content

is_unchanged_lem : (file : Option Text) (c : Text) → is_unchanged file c ≡ true → file ≡ some c
is_unchanged_lem none c h = ground arith
is_unchanged_lem (some f) c h = ap some (text_eq→eq f c h)

sent-Committed :
    (a : ApiAnswer) (content file : Option Text)
    → noticed a ≡ true
    → Committed content file (sent a content file)
sent-Committed served content file h = refl
sent-Committed refused content file h = ground arith
sent-Committed raising content file h = refl
sent-Committed lost content file h = ground arith

change_file-Committed :
    (a : ApiAnswer) (content file : Option Text)
    → noticed a ≡ true
    → Committed content file (change_file a content file)
change_file-Committed a none none h = refl
change_file-Committed a none (some f) h = sent-Committed a none (some f) h
change_file-Committed a (some c) file h = elim (Bool-cases (is_unchanged file c)) [
  | inl e ↦ rw e (is_unchanged_lem file c e)
  | inr e ↦ rw e (sent-Committed a (some c) file h)
]

looked-Committed :
    (a b : ApiAnswer) (content file : Option Text)
    → is_told a ≡ true
    → noticed b ≡ true
    → Committed content file (looked a b content file)
looked-Committed served b content file h k = change_file-Committed b content file k
looked-Committed refused b content file h k = ground arith
looked-Committed raising b content file h k = refl
looked-Committed lost b content file h k = refl

pub commit-Committed :
    (g : GithubAnswers) (content file : Option Text)
    → tells g ≡ true
    → Committed content file (commit_manifests_to_git g content file)
unfolding commit_manifests_to_git
commit-Committed g content file h =
    simp (has_token h)
      (looked-Committed g.reading g.change content file (ground (arith, h)) (ground (arith, h)))
  where
    has_token : tells g ≡ true → g.token ≡ true
    has_token k = ground (arith, k)

served_change : (content file : Option Text) → (change_file served content file).0 ≡ false
served_change none none = refl
served_change none (some f) = refl
served_change (some c) file = elim (Bool-cases (is_unchanged file c)) [
  | inl e ↦ rw e refl
  | inr e ↦ rw e refl
]

served_look :
    (a b : ApiAnswer) (content file : Option Text)
    → is_served a ≡ true
    → is_served b ≡ true
    → (looked a b content file).0 ≡ false
served_look served served content file h k = served_change content file
served_look served refused content file h k = ground arith
served_look served raising content file h k = ground arith
served_look served lost content file h k = ground arith
served_look refused b content file h k = ground arith
served_look raising b content file h k = ground arith
served_look lost b content file h k = ground arith

pub commit_works :
    (g : GithubAnswers) (content file : Option Text)
    → works g ≡ true
    → (commit_manifests_to_git g content file).0 ≡ false
unfolding commit_manifests_to_git
commit_works g content file h =
    simp (has_token h)
      (served_look g.reading g.change content file (ground (arith, h)) (ground (arith, h)))
  where
    has_token : works g ≡ true → g.token ≡ true
    has_token k = ground (arith, k)

served-noticed : (a : ApiAnswer) → is_served a ≡ true → (is_told a ≡ true) × (noticed a ≡ true)
served-noticed served h = (refl, refl)
served-noticed refused h = ground arith
served-noticed raising h = ground arith
served-noticed lost h = ground arith

pub works-tells : (g : GithubAnswers) → works g ≡ true → tells g ≡ true
works-tells g h = ground (
  arith,
  h,
  (served-noticed g.reading (ground (arith, h))).0,
  (served-noticed g.change (ground (arith, h))).1,
)
