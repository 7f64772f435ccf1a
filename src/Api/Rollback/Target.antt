-- ===== src/Api/Rollback/Target.antt =====
-- Which release a rollback goes back to.
use ship_zen_gcp.Prelude.{
  ◌≡◌, refl, Bool, true, false, not, List, [], ◌∷◌, Option, none, some, filter, all, any, ◌||◌,
  arith, ◌&&◌, ◌==◌, eq_sym, text_eq, subst, Bool-cases, inl, inr,
}
use mathlib.Core.List.{Mem, mem-cons_self}
use mathlib.Core.Path.{fun_ext}
use ship_zen_gcp.Database.{
  RowId, Deployment, State, queued, building, deploying, verifying, running, failed, superseded,
  Kind, production, preview, is_running, is_production,
}
use ship_zen_gcp.Controller.Release.{is_release}
use ship_zen_gcp.Database.Statements.{newest_first}
use ship_zen_gcp.Database.Statements.Order.{
  AllIn, AllIn-cons, newest_first-AllIn, all-newest_first, all-filter, not_after, Headed,
  newest_first-Headed,
}
use ship_zen_gcp.Api.Rollback.{first, differs, is_candidate, last_good}

-- What a rollback may go back to, read off the columns: a running production release of the project,
-- with another id and another image than the live release, if there is one.
abbrev is_running_release : Kind → State → Bool
is_running_release production running = true
is_running_release k s = false

abbrev is_other : Option Deployment → Deployment → Bool
is_other none d = true
is_other (some live) d = not (text_eq d.image_uri live.image_uri) && not (live.id == d.id)

abbrev pub qualifies : RowId → Option Deployment → Deployment → Bool
qualifies p live d = d.project == p && is_running_release d.kind d.state && is_other live d

running_release :
    (k : Kind) (s : State) → (is_production k && is_running s) ≡ is_running_release k s
unfolding is_production is_running
running_release preview s = refl
running_release production queued = refl
running_release production building = refl
running_release production deploying = refl
running_release production verifying = refl
running_release production failed = refl
running_release production superseded = refl
running_release production running = refl

other_lem : (live : Option Deployment) (d : Deployment) → differs live d ≡ is_other live d
unfolding differs
other_lem none d = refl
other_lem (some live) d = ground (arith, eq_sym d.id live.id)

candidate_lem :
    (p : RowId) (live : Option Deployment) (d : Deployment)
    → is_candidate p live d ≡ qualifies p live d
unfolding is_candidate is_release
candidate_lem p live d = ground (arith, running_release d.kind d.state, other_lem live d)

module _ (c : Deployment → Bool) where
  -- One of the rows, that passes, and no row that passes is newer; or none passes.
  abbrev pub Newest : Option Deployment → List Deployment → Type 0
  Newest none rows = any c rows ≡ false
  Newest (some t) rows =
      Mem t rows × (c t ≡ true) × (all (λ d. not (c d) || not_after t.created_at d) rows ≡ true)

  all-filtered :
      (q : Deployment → Bool) (rows : List Deployment)
      → all q (filter c rows) ≡ all (λ d. not (c d) || q d) rows
  all-filtered q [] = refl
  all-filtered q (d ∷ rows) = ground (arith, all-filtered q rows)

  nothing : (rows : List Deployment) → all (λ d. false) (filter c rows) ≡ true → any c rows ≡ false
  nothing [] h = refl
  nothing (d ∷ rows) h = ground (arith, nothing rows)

  filter-AllIn : (rows : List Deployment) → AllIn rows (filter c rows)
  filter-AllIn [] = tt
  filter-AllIn (d ∷ rows) =
      let rest = AllIn-cons d rows (filter c rows) (filter-AllIn rows) in
      elim (Bool-cases (c d)) [ inl e ↦ rw e (mem-cons_self, rest) | inr e ↦ rw e rest ]

  first-Newest :
      (rows ds : List Deployment)
      → Headed ds
      → AllIn rows ds
      → ((q : Deployment → Bool) → all q ds ≡ all q (filter c rows))
      → Newest (first ds) rows
  first-Newest rows [] h within same = nothing rows (ground (arith, same (λ d. false)))
  first-Newest rows (t ∷ ds) h within same = (
    within.0,
    ground (arith, same c, all-filter c rows),
    ground (arith, same (not_after t.created_at), all-filtered (not_after t.created_at) rows, h),
  )

-- A rollback goes to one of the rows: a running production release of the project, with another id and
-- another image than the live release, and no other such release is newer. It finds none only if there
-- is none.
pub last_good-Newest :
    (p : RowId) (live : Option Deployment) (rows : List Deployment)
    → Newest (qualifies p live) (last_good p live rows) rows
unfolding last_good
last_good-Newest p live rows =
    subst (λ c. Newest c (last_good p live rows) rows) (fun_ext (candidate_lem p live))
      (first-Newest (is_candidate p live) rows (newest_first (filter (is_candidate p live) rows))
        (newest_first-Headed (filter (is_candidate p live) rows))
        (newest_first-AllIn rows (filter (is_candidate p live) rows)
          (filter-AllIn (is_candidate p live) rows))
        (λ q. all-newest_first q (filter (is_candidate p live) rows)))
