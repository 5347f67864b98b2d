-- ===== src/Evaluation/Metrics.antt =====
-- cad2ml/evaluation/metrics.py: the confusion matrix and the counts of each class. Ratios and their
-- rounding are floating point and left out.
pub mod Shapes
pub mod Counts
use cad2ml.Prelude.{ℕ, zero, suc, ◌+◌, ◌-◌, Bool, List, [], ◌∷◌, Option, none, some}

-- numpy's matrix of integers: its rows.
abbrev pub Matrix : Type 0
Matrix = List (List ℕ)

abbrev pub zero_row : ℕ → List ℕ
zero_row zero = []
zero_row (suc n) = 0 ∷ zero_row n

abbrev pub zero_rows : ℕ → ℕ → Matrix
zero_rows zero n = []
zero_rows (suc k) n = zero_row n ∷ zero_rows k n

-- `row[p] += 1`; `none` is an IndexError.
unfoldable pub bump_row : ℕ → List ℕ → Option (List ℕ)
bump_row p [] = none
bump_row zero (x ∷ xs) = some (suc x ∷ xs)
bump_row (suc p) (x ∷ xs) = elim (bump_row p xs) [ none ↦ none | some ys ↦ some (x ∷ ys) ]

-- `cm[t, p] += 1`
unfoldable pub bump : ℕ → ℕ → Matrix → Option Matrix
unfolding bump_row
bump t p [] = none
bump zero p (r ∷ rs) = elim (bump_row p r) [ none ↦ none | some r' ↦ some (r' ∷ rs) ]
bump (suc t) p (r ∷ rs) = elim (bump t p rs) [ none ↦ none | some rs' ↦ some (r ∷ rs') ]

-- The loop over `zip(y_true, y_pred, strict=True)`; lengths that differ raise.
unfoldable pub count_pairs : List ℕ → List ℕ → Matrix → Option Matrix
unfolding bump
count_pairs [] [] m = some m
count_pairs [] (p ∷ ps) m = none
count_pairs (t ∷ ts) [] m = none
count_pairs (t ∷ ts) (p ∷ ps) m = elim (bump t p m) [ none ↦ none | some m' ↦ count_pairs ts ps m' ]

unfoldable pub confusion_matrix : List ℕ → List ℕ → ℕ → Option Matrix
unfolding count_pairs
confusion_matrix y_true y_pred n = count_pairs y_true y_pred (zero_rows n n)

abbrev pub at_row : ℕ → List ℕ → ℕ
at_row j [] = 0
at_row zero (x ∷ xs) = x
at_row (suc j) (x ∷ xs) = at_row j xs

abbrev pub row_sum : List ℕ → ℕ
row_sum [] = 0
row_sum (x ∷ xs) = x + row_sum xs

-- `cm[i, j]`, `cm[i, :].sum()`, `cm[:, j].sum()`
abbrev pub cell : ℕ → ℕ → Matrix → ℕ
cell i j [] = 0
cell zero j (r ∷ rs) = at_row j r
cell (suc i) j (r ∷ rs) = cell i j rs

abbrev pub sum_of_row : ℕ → Matrix → ℕ
sum_of_row i [] = 0
sum_of_row zero (r ∷ rs) = row_sum r
sum_of_row (suc i) (r ∷ rs) = sum_of_row i rs

abbrev pub sum_of_column : ℕ → Matrix → ℕ
sum_of_column j [] = 0
sum_of_column j (r ∷ rs) = at_row j r + sum_of_column j rs

-- The counts of class `i` in `classification_report`.
pub record ClassCounts : Type 0 where
  pub tp : ℕ
  pub fp : ℕ
  pub fn : ℕ
  pub support : ℕ

unfoldable pub class_counts : ℕ → Matrix → ClassCounts
class_counts i cm = record {
  tp = cell i i cm;
  fp = sum_of_column i cm - cell i i cm;
  fn = sum_of_row i cm - cell i i cm;
  support = sum_of_row i cm;
}
