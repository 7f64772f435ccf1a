-- ===== src/Api/Migrate.antt =====
-- api/migrate.py: the numbered migrations of the schema. The database and what a file of SQL does to
-- it are parameters; the advisory lock makes runs take turns, so a history is a list of runs.
pub mod Once
use ship_zen_gcp.Prelude.{
  ℕ, ◌-◌, Bool, true, false, not, ◌&&◌, ◌||◌, List, [], ◌∷◌, ◌++◌, map, Text, text_eq, codes,
  Option, none, some, any, all, filter, take, drop, length, ltb, leb, ◌==◌, if◌then◌else◌,
}
use mathlib.Core.Option
use ship_zen_gcp.Api.Projects.Names.{chomp}

-- `^(\d{4})_[a-z0-9_]+\.sql$`, with the decimal digits of Unicode as a parameter.
abbrev in_description : ℕ → Bool
in_description c = leb 97 c && leb c 122 || leb 48 c && leb c 57 || c == b'_'

unfoldable pub has_form : (ℕ → Bool) → Text → Bool
has_form is_decimal t =
    leb 10 (length t)
    && all is_decimal (take 4 t)
    && text_eq (take 1 (drop 4 t)) (codes "_")
    && all in_description (take (length t - 9) (drop 5 t))
    && text_eq (drop (length t - 4) t) (codes ".sql")

abbrev pub is_migration : (ℕ → Bool) → Text → Bool
is_migration is_decimal n = has_form is_decimal (chomp n)

-- `sorted`, on texts.
abbrev pub comes_before : Text → Text → Bool
comes_before [] t = true
comes_before (c ∷ cs) [] = false
comes_before (c ∷ cs) (d ∷ ds) = ltb c d || c == d && comes_before cs ds

abbrev pub put_in : Text → List Text → List Text
put_in n [] = n ∷ []
put_in n (m ∷ ms) = let rest = put_in n ms in if comes_before n m then n ∷ m ∷ ms else m ∷ rest

abbrev pub sorted : List Text → List Text
sorted [] = []
sorted (n ∷ ns) = put_in n (sorted ns)

-- The versions, `n[:-4]`. The path of a version is the version itself.
unfoldable pub migration_files : (ℕ → Bool) → List Text → List Text
unfolding has_form
migration_files is_decimal names =
    map (λ n. take (length n - 4) n) (sorted (filter (is_migration is_decimal) names))

-- The database: `schema_migrations`, in the order of insertion, and all else.
pub record Schema (D : Type 0) : Type 0 where
  pub versions : List Text
  pub rest : D

-- What a run meets: whether it gets to the table of versions, and of each version, whether its file is
-- read and whether its INSERT and commit succeed.
pub record Run : Type 0 where
  pub opens : Bool
  pub reads : Text → Bool
  pub commits : Text → Bool

module _ {D : Type 0} (execute : Text → D → Option D) where
  -- One migration, in its transaction: `none` is an exception, after which it is rolled back.
  abbrev pub in_transaction : Bool → Text → Option D → Schema D → Option (Schema D)
  in_transaction b v none s = none
  in_transaction b v (some d) s =
      if b then some (record { versions = s.versions ++ v ∷ []; rest = d }) else none

  abbrev pub apply_one : Run → Text → Schema D → Option (Schema D)
  apply_one r v s = if r.reads v then in_transaction (r.commits v) v (execute v s.rest) s else none

  -- The loop, with `done` as it was read before. The result is `none` for an exception, else what was
  -- applied.
  abbrev pub and_then :
      Text
      → (Schema D → Option (List Text) × Schema D)
      → Schema D
      → Option (Schema D)
      → Option (List Text) × Schema D
  and_then v rest s none = (none, s)
  and_then v rest s (some after) =
      let r = rest after in (Option.map (λ applied. v ∷ applied) r.0, r.1)

  abbrev pub apply_from : Run → List Text → List Text → Schema D → Option (List Text) × Schema D
  apply_from r done [] s = (some [], s)
  apply_from r done (v ∷ vs) s =
      let rest = apply_from r done vs in
      if any (text_eq v) done then rest s else and_then v rest s (apply_one r v s)

  unfoldable pub apply_migrations : List Text → Run → Schema D → Option (List Text) × Schema D
  apply_migrations files r s = if r.opens then apply_from r s.versions files s else (none, s)
