-- ===== src/Evaluation/Metrics/Counts.antt =====
-- The counts of cad2ml/evaluation/metrics.py beside the predictions themselves.
use cad2ml.Prelude.{
  ℕ, zero, suc, ◌+◌, ◌≤◌, ◌≡◌, refl, ◌&&◌, List, [], ◌∷◌, some, if◌then◌else◌, ◌==◌, arith,
  Option-cases, inl, inr, ◌<◌, length, All,
}
use cad2ml.Evaluation.Metrics.{
  Matrix, zero_row, zero_rows, bump_row, bump, count_pairs, confusion_matrix, at_row, row_sum, cell,
  sum_of_row, sum_of_column, ClassCounts, class_counts,
}
use cad2ml.Evaluation.Metrics.Shapes.{count_pairs-defined, zero_rows-Shape}

-- How many true labels, predictions, and pairs of both are `i`.
abbrev pub count_of : ℕ → List ℕ → ℕ
count_of i [] = 0
count_of i (y ∷ ys) = (if i == y then 1 else 0) + count_of i ys

abbrev pub count_both : ℕ → List ℕ → List ℕ → ℕ
count_both i [] ps = 0
count_both i (t ∷ ts) [] = 0
count_both i (t ∷ ts) (p ∷ ps) = (if (i == t) && (i == p) then 1 else 0) + count_both i ts ps

-- The counts of class `i` are those of the pairs.
pub record CountsOf (i : ℕ) (ts ps : List ℕ) (c : ClassCounts) : Type 0 where
  pub hits : c.tp ≡ count_both i ts ps
  pub predictions : c.tp + c.fp ≡ count_of i ps
  pub labels : c.tp + c.fn ≡ count_of i ts
  pub support : c.support ≡ count_of i ts

bump_row-at :
    (p j : ℕ) (r r' : List ℕ)
    → bump_row p r ≡ some r'
    → at_row j r' ≡ at_row j r + (if j == p then 1 else 0)
unfolding bump_row
bump_row-at p j [] r' q = cc
bump_row-at zero zero (x ∷ xs) r' q = ground arith
bump_row-at zero (suc j) (x ∷ xs) r' q = ground arith
bump_row-at (suc p) zero (x ∷ xs) r' q = ground arith
bump_row-at (suc p) (suc j) (x ∷ xs) r' q = elim (Option-cases (bump_row p xs)) [
  | inl n ↦ cc (rw (n, bump_row) at q)
  | inr (ys, n) ↦ ground (arith, bump_row-at p j xs ys n)
]

bump_row-sum : (p : ℕ) (r r' : List ℕ) → bump_row p r ≡ some r' → row_sum r' ≡ suc (row_sum r)
unfolding bump_row
bump_row-sum p [] r' q = cc
bump_row-sum zero (x ∷ xs) r' q = ground arith
bump_row-sum (suc p) (x ∷ xs) r' q = elim (Option-cases (bump_row p xs)) [
  | inl n ↦ cc (rw (n, bump_row) at q)
  | inr (ys, n) ↦ ground (arith, bump_row-sum p xs ys n)
]

-- What one pair adds.
bump-cell :
    (t p i : ℕ) (m m' : Matrix)
    → bump t p m ≡ some m'
    → cell i i m' ≡ cell i i m + (if (i == t) && (i == p) then 1 else 0)
unfolding bump
bump-cell t p i m m' q = cell_at t p i i m m' q
  where
    cell_at :
        (t p i j : ℕ) (m m' : Matrix)
        → bump t p m ≡ some m'
        → cell i j m' ≡ cell i j m + (if (i == t) && (j == p) then 1 else 0)
    cell_at t p i j [] m' q = cc
    cell_at zero p zero j (r ∷ rs) m' q = elim (Option-cases (bump_row p r)) [
      | inl n ↦ cc (rw (n, bump) at q)
      | inr (r', n) ↦ ground (arith, bump_row-at p j r r' n)
    ]
    cell_at zero p (suc i) j (r ∷ rs) m' q = elim (Option-cases (bump_row p r)) [
      | inl n ↦ cc (rw (n, bump) at q)
      | inr (r', n) ↦ ground arith
    ]
    cell_at (suc t) p zero j (r ∷ rs) m' q = elim (Option-cases (bump t p rs)) [
      | inl n ↦ cc (rw (n, bump) at q)
      | inr (rs', n) ↦ ground arith
    ]
    cell_at (suc t) p (suc i) j (r ∷ rs) m' q = elim (Option-cases (bump t p rs)) [
      | inl n ↦ cc (rw (n, bump) at q)
      | inr (rs', n) ↦ ground (arith, cell_at t p i j rs rs' n)
    ]

bump-sum_of_row :
    (t p i : ℕ) (m m' : Matrix)
    → bump t p m ≡ some m'
    → sum_of_row i m' ≡ sum_of_row i m + (if i == t then 1 else 0)
unfolding bump
bump-sum_of_row t p i [] m' q = cc
bump-sum_of_row zero p zero (r ∷ rs) m' q = elim (Option-cases (bump_row p r)) [
  | inl n ↦ cc (rw (n, bump) at q)
  | inr (r', n) ↦ ground (arith, bump_row-sum p r r' n)
]
bump-sum_of_row zero p (suc i) (r ∷ rs) m' q = elim (Option-cases (bump_row p r)) [
  | inl n ↦ cc (rw (n, bump) at q)
  | inr (r', n) ↦ ground arith
]
bump-sum_of_row (suc t) p zero (r ∷ rs) m' q = elim (Option-cases (bump t p rs)) [
  | inl n ↦ cc (rw (n, bump) at q)
  | inr (rs', n) ↦ ground arith
]
bump-sum_of_row (suc t) p (suc i) (r ∷ rs) m' q = elim (Option-cases (bump t p rs)) [
  | inl n ↦ cc (rw (n, bump) at q)
  | inr (rs', n) ↦ ground (arith, bump-sum_of_row t p i rs rs' n)
]

bump-sum_of_column :
    (t p j : ℕ) (m m' : Matrix)
    → bump t p m ≡ some m'
    → sum_of_column j m' ≡ sum_of_column j m + (if j == p then 1 else 0)
unfolding bump
bump-sum_of_column t p j [] m' q = cc
bump-sum_of_column zero p j (r ∷ rs) m' q = elim (Option-cases (bump_row p r)) [
  | inl n ↦ cc (rw (n, bump) at q)
  | inr (r', n) ↦ ground (arith, bump_row-at p j r r' n)
]
bump-sum_of_column (suc t) p j (r ∷ rs) m' q = elim (Option-cases (bump t p rs)) [
  | inl n ↦ cc (rw (n, bump) at q)
  | inr (rs', n) ↦ ground (arith, bump-sum_of_column t p j rs rs' n)
]

-- What a run of the loop adds to each count.
pub record Counted (i : ℕ) (ts ps : List ℕ) (m m' : Matrix) : Type 0 where
  pub both : cell i i m' ≡ cell i i m + count_both i ts ps
  pub truth : sum_of_row i m' ≡ sum_of_row i m + count_of i ts
  pub predicted : sum_of_column i m' ≡ sum_of_column i m + count_of i ps

count_pairs-Counted :
    (i : ℕ) (ts ps : List ℕ) (m m' : Matrix) → count_pairs ts ps m ≡ some m' → Counted i ts ps m m'
unfolding count_pairs
count_pairs-Counted i [] [] m m' q = record {
  both = ground arith;
  truth = ground arith;
  predicted = ground arith;
}
count_pairs-Counted i [] (p ∷ ps) m m' q = cc
count_pairs-Counted i (t ∷ ts) [] m m' q = cc
count_pairs-Counted i (t ∷ ts) (p ∷ ps) m m' q = elim (Option-cases (bump t p m)) [
  | inl n ↦ cc (rw (n, count_pairs) at q)
  | inr (m₁, n) ↦
      let h = count_pairs-Counted i ts ps m₁ m' (rw (n, count_pairs) at q) in
      record {
        both = omega (arith, h.both, bump-cell t p i m m₁ n);
        truth = omega (arith, h.truth, bump-sum_of_row t p i m m₁ n);
        predicted = omega (arith, h.predicted, bump-sum_of_column t p i m m₁ n);
      }
]

zero_row-at : (j n : ℕ) → at_row j (zero_row n) ≡ 0
zero_row-at j zero = refl
zero_row-at zero (suc n) = refl
zero_row-at (suc j) (suc n) = zero_row-at j n

zero_row-sum : (n : ℕ) → row_sum (zero_row n) ≡ 0
zero_row-sum zero = refl
zero_row-sum (suc n) = omega (arith, zero_row-sum n)

zero_rows-lem :
    (i k n : ℕ)
    → (cell i i (zero_rows k n) ≡ 0)
      × (sum_of_row i (zero_rows k n) ≡ 0)
      × (sum_of_column i (zero_rows k n) ≡ 0)
zero_rows-lem i k n = (cells i i k, sums i k, columns k)
  where
    cells : (i j k : ℕ) → cell i j (zero_rows k n) ≡ 0
    cells i j zero = refl
    cells zero j (suc k) = zero_row-at j n
    cells (suc i) j (suc k) = cells i j k

    sums : (i k : ℕ) → sum_of_row i (zero_rows k n) ≡ 0
    sums i zero = refl
    sums zero (suc k) = zero_row-sum n
    sums (suc i) (suc k) = sums i k

    columns : (k : ℕ) → sum_of_column i (zero_rows k n) ≡ 0
    columns zero = refl
    columns (suc k) = omega (arith, zero_row-at i n, columns k)

count_both-le :
    (i : ℕ) (ts ps : List ℕ)
    → (count_both i ts ps ≤ count_of i ts) × (count_both i ts ps ≤ count_of i ps)
count_both-le i [] ps = (omega arith, omega arith)
count_both-le i (t ∷ ts) [] = (omega arith, omega arith)
count_both-le i (t ∷ ts) (p ∷ ps) =
    let h = count_both-le i ts ps in (ground (arith, h.0), ground (arith, h.1))

class_counts-count :
    (y_true y_pred : List ℕ) (n : ℕ) (cm : Matrix)
    → confusion_matrix y_true y_pred n ≡ some cm
    → (i : ℕ) → CountsOf i y_true y_pred (class_counts i cm)
unfolding confusion_matrix class_counts
class_counts-count y_true y_pred n cm q i =
    let h = count_pairs-Counted i y_true y_pred (zero_rows n n) cm q in
    let (z, zr, zc) = zero_rows-lem i n n in
    let (l, r) = count_both-le i y_true y_pred in
    record {
      hits = omega (arith, h.both, z);
      predictions = omega (arith, h.both, h.predicted, z, zc, r);
      labels = omega (arith, h.both, h.truth, z, zr, l);
      support = omega (arith, h.truth, zr);
    }

-- For as many predictions as labels, all of them classes, the matrix is computed, and the counts of
-- every class are those of the labels: `tp` counts the pairs in which both are the class, `tp + fp`
-- its predictions, and `tp + fn`, which is the support, its labels.
pub confusion_matrix-counts :
    (y_true y_pred : List ℕ) (n : ℕ)
    → length y_true ≡ length y_pred
    → All (λ t. t < n) y_true
    → All (λ p. p < n) y_pred
    → (cm : Matrix) × (confusion_matrix y_true y_pred n ≡ some cm)
      × ((i : ℕ) → CountsOf i y_true y_pred (class_counts i cm))
unfolding confusion_matrix
confusion_matrix-counts y_true y_pred n l a b =
    let (cm, q) = count_pairs-defined n y_true y_pred (zero_rows n n) (zero_rows-Shape n n) l a b in
    (cm, q, class_counts-count y_true y_pred n cm q)
