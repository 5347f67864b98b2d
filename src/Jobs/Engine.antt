-- ===== src/Jobs/Engine.antt =====
-- The database engine behind cad2ml/jobs/db.py (sqlalchemy over PostgreSQL or SQLite) is not part of
-- the repository: the statements that the code issues are a parameter, with their documented meaning.
use cad2ml.Prelude.{
  ℕ, ◌≡◌, Bool, List, [], ◌∷◌, ◌++◌, Option, none, some, any, keep, map_where, count_where,
  if◌then◌else◌, refl,
}

-- A table is the list of its rows, in the order in which the engine returns them. A clash between a
-- new row and an old one is a violated key, and the insertion is an `IntegrityError`.
pub record Engine : Type 1 where
  pub select : {R : Type 0} → (R → Bool) → List R → List R
  pub update : {R : Type 0} → (R → Bool) → (R → R) → List R → List R
  pub rowcount : {R : Type 0} → (R → Bool) → List R → ℕ
  pub insert : {R : Type 0} → (R → R → Bool) → R → List R → Option (List R)
  pub select_lem :
      {R : Type 0} (where_ : R → Bool) (rows : List R) → select where_ rows ≡ keep where_ rows
  pub update_lem :
      {R : Type 0} (where_ : R → Bool) (values : R → R) (rows : List R)
      → update where_ values rows ≡ map_where where_ values rows
  pub rowcount_lem :
      {R : Type 0} (where_ : R → Bool) (rows : List R)
      → rowcount where_ rows ≡ count_where where_ rows
  pub insert_lem :
      {R : Type 0} (clash : R → R → Bool) (r : R) (rows : List R)
      → insert clash r rows ≡ (if any (clash r) rows then none else some (rows ++ r ∷ []))

-- An engine whose statements run on the lists: the laws can be met.
abbrev pub list_engine : Engine
list_engine = record {
  select = λ p rs. keep p rs;
  update = λ p f rs. map_where p f rs;
  rowcount = λ p rs. count_where p rs;
  insert = λ clash r rs. if any (clash r) rs then none else some (rs ++ r ∷ []);
  select_lem = λ p rs. refl;
  update_lem = λ p f rs. refl;
  rowcount_lem = λ p rs. refl;
  insert_lem = λ clash r rs. refl;
}
