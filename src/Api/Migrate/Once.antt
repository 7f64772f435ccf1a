-- ===== src/Api/Migrate/Once.antt =====
-- Each migration takes effect once and in order, whatever fails.
use mathlib.Core.List.{append-nil, append_assoc}
use ship_zen_gcp.Prelude.{
  ℕ, ◌≡◌, refl, sym, ap, ◌∙◌, Bool, true, false, not, ◌&&◌, List, [], ◌∷◌, ◌++◌, Text, text_eq,
  text_eq_refl, text_eq_sym, Option, none, some, any, all, all-imp, arith, Bool-cases, Option-cases,
  inl, inr, subst, and_true, get_or, if◌then◌else◌,
}
use mathlib.Core.Option
use ship_zen_gcp.Api.Migrate.{
  migration_files, Schema, Run, in_transaction, apply_one, and_then, apply_from, apply_migrations,
}

abbrev pub are_distinct : List Text → Bool
are_distinct [] = true
are_distinct (v ∷ vs) = not (any (text_eq v) vs) && are_distinct vs

all_self : (vs : List Text) → all (λ v. any (text_eq v) vs) vs ≡ true
all_self [] = refl
all_self (v ∷ vs) = ground (
  arith,
  text_eq_refl v,
  all-imp (λ w. any (text_eq w) vs) (λ w. any (text_eq w) (v ∷ vs)) (λ w h. ground (arith, h)) vs
      (all_self vs),
)

none-append : (p : Text → Bool) (us vs : List Text) → any p (us ++ vs) ≡ false → any p vs ≡ false
none-append p [] vs h = h
none-append p (u ∷ us) vs h = ground (arith, h, none-append p us vs)

apart-cons :
    (u : Text) (us vs : List Text)
    → any (text_eq u) vs ≡ false
    → all (λ v. not (any (text_eq v) us)) vs ≡ true
    → all (λ v. not (any (text_eq v) (u ∷ us))) vs ≡ true
apart-cons u us [] h a = refl
apart-cons u us (v ∷ vs) h a = ground (arith, h, a, text_eq_sym u v, apart-cons u us vs)

apart :
    (us vs : List Text)
    → are_distinct (us ++ vs) ≡ true
    → all (λ v. not (any (text_eq v) us)) vs ≡ true
apart [] [] h = refl
apart [] (v ∷ vs) h = ground (arith, apart [] vs)
apart (u ∷ us) vs h =
    apart-cons u us vs (none-append (text_eq u) us vs (ground (arith, h)))
      (apart us vs (ground (arith, h)))

module _ {D : Type 0} (execute : Text → D → Option D) (files : List Text) (empty : D) where
  -- The migrations, each executed once, in order.
  abbrev pub executed : List Text → Option D → Option D
  executed [] o = o
  executed (v ∷ vs) none = none
  executed (v ∷ vs) (some d) = executed vs (execute v d)

  executed-snoc :
      (vs : List Text) (v : Text) (o : Option D) (d e : D)
      → executed vs o ≡ some d
      → execute v d ≡ some e
      → executed (vs ++ v ∷ []) o ≡ some e
  executed-snoc [] v none d e h k = ground arith
  executed-snoc [] v (some x) d e h k = cc
  executed-snoc (u ∷ us) v none d e h k = ground arith
  executed-snoc (u ∷ us) v (some x) d e h k = executed-snoc us v (execute u x) d e h k

  -- The versions of the table are the first files, and the database is what they make of the empty one.
  pub record IsBuilt (s : Schema D) : Type 0 where
    pub pending : List Text
    pub split : s.versions ++ pending ≡ files
    pub built : executed s.versions (some empty) ≡ some s.rest

  -- A run that returns has applied all that was left.
  abbrev pub Complete : Schema D → Option (List Text) → Schema D → Type 0
  Complete s none after = Unit {0}
  Complete s (some vs) after = (s.versions ++ vs ≡ files) × (after.versions ≡ files)

  abbrev Ends : Schema D → Option (List Text) × Schema D → Type 0
  Ends s x = IsBuilt x.1 × Complete s x.0 x.1

  skip :
      (r : Run) (done us vs : List Text) (s : Schema D)
      → all (λ v. any (text_eq v) done) us ≡ true
      → apply_from execute r done (us ++ vs) s ≡ apply_from execute r done vs s
  skip r done [] vs s h = refl
  skip r done (u ∷ us) vs s h =
      simp (and_true (any (text_eq u) done) _ h).0
        (skip r done us vs s (and_true (any (text_eq u) done) _ h).1)

  in_transaction-some :
      (b : Bool) (v : Text) (o : Option D) (s after : Schema D)
      → in_transaction execute b v o s ≡ some after
      → (after.versions ≡ s.versions ++ v ∷ []) × (o ≡ some after.rest)
  in_transaction-some b v none s after h = ground arith
  in_transaction-some false v (some d) s after h = ground arith
  in_transaction-some true v (some d) s after h =
      (ap (λ o. (get_or o s).versions) (sym h), ap (λ o. some (get_or o s).rest) h)

  read-some :
      (b c : Bool) (v : Text) (o : Option D) (s after : Schema D)
      → (if b then in_transaction execute c v o s else none) ≡ some after
      → (after.versions ≡ s.versions ++ v ∷ []) × (o ≡ some after.rest)
  read-some true c v o s after h = in_transaction-some c v o s after h
  read-some false c v o s after h = ground arith

  Complete-cons :
      (s after end : Schema D) (v : Text)
      → after.versions ≡ s.versions ++ v ∷ []
      → (o : Option (List Text)) → Complete after o end
      → Complete s (Option.map (λ vs. v ∷ vs) o) end
  Complete-cons s after end v grown none c = tt
  Complete-cons s after end v grown (some ws) c =
      (sym (append_assoc s.versions (v ∷ []) ws) ∙ ap (λ us. us ++ ws) (sym grown) ∙ c.0, c.1)

  go_on-Ends :
      (r : Run) (done vs : List Text) (v : Text) (s : Schema D)
      → s.versions ++ v ∷ vs ≡ files
      → executed s.versions (some empty) ≡ some s.rest
      → ((after : Schema D)
          → after.versions ++ vs ≡ files
          → executed after.versions (some empty) ≡ some after.rest
          → Ends after (apply_from execute r done vs after))
      → Ends s (and_then execute v (apply_from execute r done vs) s (apply_one execute r v s))
  go_on-Ends r done vs v s split built rest = elim (Option-cases (apply_one execute r v s)) [
    | inl e ↦ rw e (record { pending = v ∷ vs; split = split; built = built }, tt)
    | inr (after, e) ↦
        let one = read-some (r.reads v) (r.commits v) v (execute v s.rest) s after e in
        let ends =
          rest after (ap (λ us. us ++ vs) one.0 ∙ append_assoc s.versions (v ∷ []) vs ∙ split) (
            ap (λ us. executed us (some empty)) one.0
            ∙ executed-snoc s.versions v (some empty) s.rest after.rest built one.1) in
        rw e (ends.0, Complete-cons s after (apply_from execute r done vs after).1 v one.0 _ ends.1)
  ]

  loop-Ends :
      (r : Run) (done vs : List Text) (s : Schema D)
      → all (λ v. not (any (text_eq v) done)) vs ≡ true
      → s.versions ++ vs ≡ files
      → executed s.versions (some empty) ≡ some s.rest
      → Ends s (apply_from execute r done vs s)
  loop-Ends r done [] s new split built = (
    record { pending = []; split = split; built = built },
    (split, sym (append-nil s.versions) ∙ split),
  )
  loop-Ends r done (v ∷ vs) s new split built = simp (any_of new) (
      go_on-Ends r done vs v s split built
        (λ after. loop-Ends r done vs after (ground (arith, new))))
    where
      any_of : all (λ u. not (any (text_eq u) done)) (v ∷ vs) ≡ true → any (text_eq v) done ≡ false
      any_of h = ground (arith, h)

  open-Ends :
      (r : Run) (s : Schema D)
      → are_distinct files ≡ true
      → IsBuilt s
      → Ends s (apply_from execute r s.versions files s)
  open-Ends r s distinct h =
      subst (λ fs. Ends s (apply_from execute r s.versions fs s)) h.split
        (rw (skip r s.versions s.versions h.pending s (all_self s.versions)) (
          loop-Ends r s.versions h.pending s
            (apart s.versions h.pending (ap are_distinct h.split ∙ distinct)) h.split h.built))

  -- A run from a state that is built leaves one that is, and has applied all if it returns.
  run-Ends :
      (r : Run) (s : Schema D)
      → are_distinct files ≡ true
      → IsBuilt s
      → Ends s (apply_migrations execute files r s)
  unfolding apply_migrations
  run-Ends r s distinct h = elim (Bool-cases r.opens) [
    | inl e ↦ simp e (open-Ends r s distinct h)
    | inr e ↦ simp e (h, tt)
  ]

  -- The runs of any number of API replicas take turns.
  abbrev pub after_runs : List Run → Schema D
  after_runs [] = record { versions = []; rest = empty }
  after_runs (r ∷ rs) = (apply_migrations execute files r (after_runs rs)).1

  after_runs-IsBuilt : (rs : List Run) → are_distinct files ≡ true → IsBuilt (after_runs rs)
  after_runs-IsBuilt [] distinct = record { pending = files; split = refl; built = refl }
  after_runs-IsBuilt (r ∷ rs) distinct =
      (run-Ends r (after_runs rs) distinct (after_runs-IsBuilt rs distinct)).0

-- However many runs there were and whatever failed in them, after one more the versions of the table
-- are the first of the sorted files, and the database is what these make of the empty one, each executed
-- once and in order. If that run returns, they are all the files, and it returns those that it added.
-- The versions of the files are distinct.
pub apply_migrations-Once :
    {D : Type 0} (execute : Text → D → Option D) (is_decimal : ℕ → Bool) (names : List Text)
    (empty : D) (rs : List Run) (r : Run)
    → are_distinct (migration_files is_decimal names) ≡ true
    → let files = migration_files is_decimal names in
      let s = after_runs execute files empty rs in
      let x = apply_migrations execute files r s in
      IsBuilt execute files empty x.1 × Complete execute files empty s x.0 x.1
apply_migrations-Once execute is_decimal names empty rs r distinct =
    let files = migration_files is_decimal names in
    run-Ends execute files empty r (after_runs execute files empty rs) distinct
      (after_runs-IsBuilt execute files empty rs distinct)
