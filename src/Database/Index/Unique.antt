-- ===== src/Database/Index/Unique.antt =====
-- The unique indexes as an invariant of the table, and the statements that keep it.
use ship_zen_gcp.Prelude.{
  ℕ, ◌≡◌, refl, sym, ◌∙◌, Bool, true, false, not, ◌&&◌, ◌||◌, List, [], ◌∷◌, ◌++◌, Option, none,
  some, any, all, ◌==◌, if◌then◌else◌, arith,
}
use ship_zen_gcp.Database.{Deployment, in_flight, production, preview, Kind}
use ship_zen_gcp.Database.Index.{same_number, same_kind, same_key, clashes}
use ship_zen_gcp.Database.Statements.{update}

-- No row clashes with another.
unfoldable pub is_indexed : List Deployment → Bool
unfolding clashes
is_indexed rows = all (λ d. not (clashes d rows)) rows

eq_sym : (a b : ℕ) → (a == b) ≡ (b == a)
eq_sym a b = ground arith

same_number_sym : (a b : Option ℕ) → same_number a b ≡ same_number b a
same_number_sym none none = refl
same_number_sym none (some b) = refl
same_number_sym (some a) none = refl
same_number_sym (some a) (some b) = eq_sym a b

same_kind_sym : (k l : Kind) (a b : Option ℕ) → same_kind k l a b ≡ same_kind l k b a
same_kind_sym production production a b = refl
same_kind_sym production preview a b = refl
same_kind_sym preview production a b = refl
same_kind_sym preview preview a b = same_number_sym a b

same_key_sym : (d e : Deployment) → same_key d e ≡ same_key e d
unfolding same_key
same_key_sym d e =
    rw (eq_sym d.project e.project, same_kind_sym d.kind e.kind d.pr_number e.pr_number) refl

-- The active rows with the key of `d`, under another id.
abbrev pub rivals : Deployment → Deployment → Bool
rivals d e = not (e.id == d.id) && in_flight e.state && same_key d e

any-append :
    (p : Deployment → Bool) (ds : List Deployment) (d : Deployment)
    → any p (ds ++ d ∷ []) ≡ (any p ds || p d)
any-append p [] d = ground arith
any-append p (e ∷ ds) d = ground (arith, any-append p ds d)

all-append :
    (p : Deployment → Bool) (ds : List Deployment) (d : Deployment)
    → all p (ds ++ d ∷ []) ≡ (all p ds && p d)
all-append p [] d = ground arith
all-append p (e ∷ ds) d = ground (arith, all-append p ds d)

-- The Boolean core: `old` says that the row had a rival already.
no_rival :
    (active old new same key : Bool)
    → not (active && old) ≡ true
    → (new && (not same && active && key)) ≡ false
    → not (active && (old || (not same && new && key))) ≡ true
no_rival active old new same key h free = ground arith

pub and_intro : (a b : Bool) → a ≡ true → b ≡ true → (a && b) ≡ true
and_intro a b h k = ground arith

pub and_left : (a b : Bool) → (a && b) ≡ true → a ≡ true
and_left a b h = ground arith

pub and_right : (a b : Bool) → (a && b) ≡ true → b ≡ true
and_right a b h = ground arith

or_free : (a x y : Bool) → (a && (x || y)) ≡ false → ((a && x) ≡ false) × ((a && y) ≡ false)
or_free a x y h = ground arith

module _ (rows : List Deployment) (d : Deployment) where
  spared :
      (e : Deployment)
      → not (clashes e rows) ≡ true
      → (in_flight d.state && rivals d e) ≡ false
      → not (clashes e (rows ++ d ∷ [])) ≡ true
  unfolding clashes
  spared e h free =
      rw (any-append (rivals e) rows d, eq_sym d.id e.id, same_key_sym e d)
        (no_rival (in_flight e.state) (any (rivals e) rows) (in_flight d.state) (e.id == d.id)
          (same_key d e) h free)

  -- A row that comes in without a clash gives the others none.
  all-insert :
      (es : List Deployment)
      → all (λ e. not (clashes e rows)) es ≡ true
      → (in_flight d.state && any (rivals d) es) ≡ false
      → all (λ e. not (clashes e (rows ++ d ∷ []))) es ≡ true
  all-insert [] h free = refl
  all-insert (e ∷ es) h free =
      let parts = or_free (in_flight d.state) (rivals d e) (any (rivals d) es) free in
      and_intro _ _ (spared e (and_left _ _ h) parts.0) (all-insert es (and_right _ _ h) parts.1)

  self_free :
      (active old key : Bool) (i : ℕ)
      → (active && old) ≡ false
      → not (active && (old || (not (i == i) && active && key))) ≡ true
  self_free active old key i h = ground arith

  itself : clashes d rows ≡ false → not (clashes d (rows ++ d ∷ [])) ≡ true
  unfolding clashes
  itself free =
      rw (any-append (rivals d) rows d)
        (self_free (in_flight d.state) (any (rivals d) rows) (same_key d d) d.id free)

  pub insert-is_indexed :
      is_indexed rows ≡ true → clashes d rows ≡ false → is_indexed (rows ++ d ∷ []) ≡ true
  unfolding is_indexed
  insert-is_indexed h free =
      rw (all-append (λ e. not (clashes e (rows ++ d ∷ []))) rows d)
        (and_intro _ _ (all-insert rows h free) (itself free))

weaker : (n a a' k : Bool) → (a' ≡ true → a ≡ true) → (n && a' && k) ≡ true → (n && a && k) ≡ true
weaker n a a' k h i = ground (arith, h)

or_weaker :
    (x x' y y' : Bool)
    → (x' ≡ true → x ≡ true)
    → (y' ≡ true → y ≡ true)
    → (x' || y') ≡ true
    → (x || y) ≡ true
or_weaker x x' y y' h k i = ground (arith, h, k)

still_free :
    (a a' x x' : Bool)
    → (a' ≡ true → a ≡ true)
    → (x' ≡ true → x ≡ true)
    → not (a && x) ≡ true
    → not (a' && x') ≡ true
still_free a a' x x' h k i = ground (arith, h, k)

-- A statement that makes no row active, and changes no key, keeps the indexes.
module _ (cond : Deployment → Bool) (set : Deployment → Deployment) where
  abbrev pub changed : Deployment → Deployment
  changed d = if cond d then set d else d

  module _ (ids : (d : Deployment) → (changed d).id ≡ d.id)
      (keys : (d e : Deployment) → same_key (changed d) (changed e) ≡ same_key d e)
      (fewer : (d : Deployment)
        → in_flight (changed d).state ≡ true
        → in_flight d.state ≡ true) where
    rivals-changed : (d e : Deployment) → rivals (changed d) (changed e) ≡ true → rivals d e ≡ true
    rivals-changed d e h =
        let same : rivals (changed d) (changed e)
            ≡ (not (e.id == d.id) && in_flight (changed e).state && same_key d e) =
          rw (ids d, ids e, keys d e) refl in
        weaker (not (e.id == d.id)) (in_flight e.state) (in_flight (changed e).state) (same_key d e)
          (fewer e) (sym same ∙ h)

    any-changed :
        (d : Deployment) (rows : List Deployment)
        → any (rivals (changed d)) (update cond set rows) ≡ true
        → any (rivals d) rows ≡ true
    unfolding update
    any-changed d [] h = h
    any-changed d (e ∷ rows) h =
        or_weaker (rivals d e) (rivals (changed d) (changed e)) _ _ (rivals-changed d e)
          (any-changed d rows) h

    all-changed :
        (rows es : List Deployment)
        → all (λ d. not (clashes d rows)) es ≡ true
        → all (λ d. not (clashes d (update cond set rows))) (update cond set es) ≡ true
    unfolding update clashes
    all-changed rows [] h = refl
    all-changed rows (d ∷ es) h =
        and_intro _ _
          (still_free (in_flight d.state) (in_flight (changed d).state) (any (rivals d) rows) _
            (fewer d) (any-changed d rows) (and_left _ _ h))
          (all-changed rows es (and_right _ _ h))

    pub update-is_indexed :
        (rows : List Deployment) → is_indexed rows ≡ true → is_indexed (update cond set rows) ≡ true
    unfolding is_indexed
    update-is_indexed rows h = all-changed rows rows h
