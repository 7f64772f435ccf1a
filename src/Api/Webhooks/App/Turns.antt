-- ===== src/Api/Webhooks/App/Turns.antt =====
-- The rule of the loop over projects: what each turn keeps, the loop keeps, wherever it stops.
use ship_zen_gcp.Prelude.{◌≡◌, Bool, true, List, [], ◌∷◌, Option, none, some, all, and_true}
use ship_zen_gcp.Database.{RowId, Project}
use ship_zen_gcp.Api.Store.{Store, Reply, ok, http}
use ship_zen_gcp.Api.Limits.{Limits, check_project_limits}
use ship_zen_gcp.Api.Webhooks.App.{
  Turn, Limited, free, limited, broken, limited_by, add_id, after_turn, each_project,
}

abbrev pub OnSome {ℓ κ} : {A : Type ℓ} → (A → Type κ) → Option A → Type κ
OnSome R none = Unit
OnSome R (some a) = R a

module _ (R : Store → Type 0) where
  add_id-keeps : (i : RowId) (x : Reply (List RowId) × Store) → R x.1 → R (add_id i x).1
  add_id-keeps i (ok ids, s) h = h
  add_id-keeps i (http n, s) h = h

  after_turn-keeps :
      (c : Limited) (i : RowId) (o : Option Store) (s : Store)
      (rest : Store → Reply (List RowId) × Store)
      → R s
      → OnSome R o
      → ((t : Store) → R t → R (rest t).1)
      → R (after_turn c i o s rest).1
  after_turn-keeps broken i o s rest h k next = h
  after_turn-keeps limited i o s rest h k next = next s h
  after_turn-keeps free i none s rest h k next = next s h
  after_turn-keeps free i (some t) s rest h k next = add_id-keeps i (rest t) (next t k)

  pub each_project-keeps :
      (l : Limits) (turn : RowId → Turn) (start : Turn → Project → Store → Option Store)
      (passes : Project → Bool)
      → ((t : Turn) (q : Project) (s : Store) → passes q ≡ true → R s → OnSome R (start t q s))
      → (qs : List Project) → all passes qs ≡ true
      → (s : Store) → R s
      → R (each_project l turn start qs s).1
  unfolding each_project
  each_project-keeps l turn start passes keep [] a s h = h
  each_project-keeps l turn start passes keep (q ∷ qs) a s h =
      after_turn-keeps
        (limited_by (turn q.id).request.queried (check_project_limits l (turn q.id).request q.id s))
        (turn q.id).request.fresh (start (turn q.id) q s) s (each_project l turn start qs) h
        (keep (turn q.id) q s (and_true (passes q) (all passes qs) a).0 h)
        (each_project-keeps l turn start passes keep qs (and_true (passes q) (all passes qs) a).1)
