-- ===== src/Api/Pages/Walk.antt =====
-- Following the cursors gives the project's deployments once each, in order.
use mathlib.Core.List.{append_assoc}
use ship_zen_gcp.Prelude.{
  ℕ, zero, suc, ◌+◌, ◌*◌, ◌≡◌, refl, sym, ap, ◌∙◌, subst, true, false, ◌&&◌, List, [], ◌∷◌, ◌++◌,
  Text, Option, none, some, take, drop, filter, any, leb, ◌==◌, take-append-drop, arith,
  Option-cases, inl, inr, get_or,
}
use ship_zen_gcp.Database.{RowId, Deployment, Project}
use ship_zen_gcp.Api.Store.{Reply, ok, ◌>>=◌, ◌>>◌, guard, Store, Request}
use ship_zen_gcp.Api.Access.{check_project_access}
use ship_zen_gcp.Api.Pages.{
  RowKey, row_key, is_below, latest_first, split_bar, cursor_key, after_cursor, of_project,
  list_deployments,
}
use ship_zen_gcp.Api.Pages.Order.{
  descends, ids_distinct, cut, descends-latest_first, ids_distinct-filter,
}

-- Lists.
abbrev last_of : List Deployment → Option Deployment
last_of [] = none
last_of (d ∷ []) = some d
last_of (d ∷ e ∷ es) = last_of (e ∷ es)

abbrev but_last : List Deployment → List Deployment
but_last [] = []
but_last (d ∷ []) = []
but_last (d ∷ e ∷ es) = d ∷ but_last (e ∷ es)

last_of_split :
    (ds : List Deployment) (d : Deployment) → last_of ds ≡ some d → ds ≡ but_last ds ++ d ∷ []
last_of_split [] d h = ground arith
last_of_split (e ∷ []) d h = ap (λ o. get_or o e ∷ []) h
last_of_split (e ∷ f ∷ fs) d h = ap (λ r. e ∷ r) (last_of_split (f ∷ fs) d h)

none_last : (ds : List Deployment) → last_of ds ≡ none → ds ≡ []
none_last [] h = refl
none_last (e ∷ []) h = ground arith
none_last (e ∷ f ∷ fs) h = ground (arith, none_last (f ∷ fs) h)

suc_plus : (a b : ℕ) → suc (a + b) ≡ suc a + b
suc_plus a b = omega arith

no_pages : (l : ℕ) → 0 ≡ 0 * l
no_pages l = omega arith

another_page : (n l : ℕ) → l + n * l ≡ suc n * l
another_page n l = omega arith

take_empty : (a : ℕ) → take {A = Deployment} a [] ≡ []
take_empty zero = refl
take_empty (suc a) = refl

take-take : (a b : ℕ) (ds : List Deployment) → take a ds ++ take b (drop a ds) ≡ take (a + b) ds
take-take zero b ds = ap (λ n. take n ds) (omega arith)
take-take (suc a) b [] = take_empty b ∙ sym (take_empty (suc a + b))
take-take (suc a) b (d ∷ ds) =
    ap (λ r. d ∷ r) (take-take a b ds) ∙ ap (λ n. take n (d ∷ ds)) (suc_plus a b)

split_bar_lem :
    (a b : Text) → any (λ c. c == b'|') a ≡ false → split_bar (a ++ b'|' ∷ b) ≡ some (a, b)
split_bar_lem [] b h = refl
split_bar_lem (c ∷ cs) b h = rw (bar_free h, split_bar_lem cs b (ground (arith, h))) refl
  where
    bar_free : any (λ d. d == b'|') (c ∷ cs) ≡ false → (c == b'|') ≡ false
    bar_free k = ground (arith, k)

take_none : (a : ℕ) (ds : List Deployment) → leb 1 a ≡ true → take a ds ≡ [] → ds ≡ []
take_none zero ds h e = ground (arith, h)
take_none (suc a) [] h e = refl
take_none (suc a) (d ∷ ds) h e = ground arith

split_at :
    (l : ℕ) (rows cs ds : List Deployment) (d : Deployment)
    → rows ≡ cs ++ ds
    → last_of (take l ds) ≡ some d
    → rows ≡ (cs ++ but_last (take l ds)) ++ d ∷ drop l ds
split_at l rows cs ds d h e =
    h
    ∙ ap (λ r. cs ++ r)
        (sym (take-append-drop l ds)
          ∙ ap (λ r. r ++ drop l ds) (last_of_split (take l ds) d e)
          ∙ append_assoc (but_last (take l ds)) (d ∷ []) (drop l ds))
    ∙ sym (append_assoc cs (but_last (take l ds)) (d ∷ drop l ds))

printed_cursor :
    (read : Text → Text → Option RowKey) (a b : Text) (k : RowKey)
    → any (λ c. c == b'|') a ≡ false
    → read a b ≡ some k
    → cursor_key read (some (a ++ b'|' ∷ b)) ≡ ok (some k)
unfolding cursor_key ◌>>=◌
printed_cursor read [] b k h r = rw r refl
printed_cursor read (c ∷ cs) b k h r = rw (split_bar_lem (c ∷ cs) b h, r) refl

-- A client that starts without a cursor, and passes the times and ids as the rows show them: the
-- database reads them back, and no time has a bar.
module _ (read : Text → Text → Option RowKey) (time id_of : ℕ → Text)
    (read_back : (t i : ℕ) → read (time t) (id_of i) ≡ some (t, i))
    (no_bar : (t : ℕ) → any (λ c. c == b'|') (time t) ≡ false) (req : Request) (p : RowId)
    (limit : ℕ) (s : Store) where
  abbrev pub cursor_of : Deployment → Text
  cursor_of d = time d.updated_at ++ b'|' ∷ id_of d.id

  abbrev pub next_page :
      List Deployment
      → (Text → Reply (List Deployment))
      → Option Deployment
      → Reply (List Deployment)
  next_page ds next none = ok ds
  next_page ds next (some d) = do rest ← next (cursor_of d); ok (ds ++ rest)

  -- At most that many pages, up to an empty one.
  abbrev pub walk : ℕ → Option Text → Reply (List Deployment)
  walk zero c = ok []
  walk (suc n) c = do
    ds ← list_deployments read true req p limit c s
    next_page ds (λ t. walk n (some t)) (last_of ds)

  -- All rows of the project.
  abbrev pub rows : List Deployment
  rows = latest_first (filter (of_project p) s.deployments)

  rows-descends : ids_distinct s.deployments ≡ true → descends rows ≡ true
  rows-descends h =
      descends-latest_first (filter (of_project p) s.deployments)
        (ids_distinct-filter (of_project p) s.deployments h)

  module _ (q : Project) (granted : check_project_access false req p s ≡ ok q)
      (in_range : (leb 1 limit && leb limit 100) ≡ true) where
    one_page :
        (c : Option Text) (k : Option RowKey) (ds : List Deployment)
        → cursor_key read c ≡ ok k
        → after_cursor k rows ≡ ds
        → list_deployments read true req p limit c s ≡ ok (take limit ds)
    unfolding list_deployments ◌>>=◌ ◌>>◌ guard
    one_page c k ds h e = rw (granted, in_range, h, e) refl

    walk_lem :
        (n : ℕ) (c : Option Text) (k : Option RowKey) (cs ds : List Deployment)
        → cursor_key read c ≡ ok k
        → after_cursor k rows ≡ ds
        → rows ≡ cs ++ ds
        → ids_distinct s.deployments ≡ true
        → walk n c ≡ ok (take (n * limit) ds)
    unfolding ◌>>=◌
    walk_lem zero c k cs ds h e split distinct = ap (λ m. ok (take m ds)) (no_pages limit)
    walk_lem (suc n) c k cs ds h e split distinct =
        rw (one_page c k ds h e) (elim (Option-cases (last_of (take limit ds))) [
          | inl f ↦ rw f (ap ok (empty_page (suc n) ds (none_last (take limit ds) f)))
          | inr (d, f) ↦
              let parted = split_at limit rows cs ds d split f in
              rw
                (
                  f,
                  walk_lem n (some (cursor_of d)) (some (row_key d))
                      ((cs ++ but_last (take limit ds)) ++ d ∷ []) (drop limit ds)
                      (printed_cursor read (time d.updated_at) (id_of d.id) (row_key d)
                        (no_bar d.updated_at) (read_back d.updated_at d.id))
                      (below_last d parted)
                      (parted
                        ∙ sym (
                            append_assoc (cs ++ but_last (take limit ds)) (d ∷ []) (drop limit ds)))
                      distinct,
                )
                (ap ok
                  (take-take limit (n * limit) ds ∙ ap (λ m. take m ds) (another_page n limit)))
        ])
      where
        empty_page :
            (m : ℕ) (es : List Deployment)
            → take limit es ≡ []
            → take limit es ≡ take (m * limit) es
        empty_page m es none_left =
            none_left
            ∙ sym (
                ap (take (m * limit)) (take_none limit es (ground (arith, in_range)) none_left)
                ∙ take_empty (m * limit))

        below_last :
            (d : Deployment)
            → rows ≡ (cs ++ but_last (take limit ds)) ++ d ∷ drop limit ds
            → filter (is_below (row_key d)) rows ≡ drop limit ds
        below_last d parted =
            subst (λ rs. filter (is_below (row_key d)) rs ≡ drop limit ds) (sym parted)
              (cut (cs ++ but_last (take limit ds)) d (drop limit ds)
                (ap descends (sym parted) ∙ rows-descends distinct))

    -- A client that is let in and follows the cursors for a number of pages gets the first rows of the
    -- project, in their order and each once, as many as fit on these pages (all of them, if so many
    -- fit). Nothing changes meanwhile and no query fails, the ids of deployments are distinct, the
    -- limit is in 1..100, and a time and an id are read back as they were shown.
    pub walk-rows :
        (n : ℕ) → ids_distinct s.deployments ≡ true → walk n none ≡ ok (take (n * limit) rows)
    unfolding cursor_key
    walk-rows n distinct = walk_lem n none none [] rows refl refl refl distinct
