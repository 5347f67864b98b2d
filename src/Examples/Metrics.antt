-- ===== src/Examples/Metrics.antt =====
-- A run of cad2ml/evaluation/metrics.py.
use cad2ml.Prelude.{ℕ, ◌≡◌, refl, List, [], ◌∷◌, some, arith}
use cad2ml.Evaluation.Metrics.{Matrix, confusion_matrix, class_counts}
use cad2ml.Evaluation.Metrics.Counts.{CountsOf, confusion_matrix-counts}

abbrev labels : List ℕ
labels = 0 ∷ 1 ∷ 1 ∷ []

abbrev predictions : List ℕ
predictions = 0 ∷ 1 ∷ 0 ∷ []

confusion_matrix-counts_example :
    (cm : Matrix) × (confusion_matrix labels predictions 2 ≡ some cm)
    × ((i : ℕ) → CountsOf i labels predictions (class_counts i cm))
confusion_matrix-counts_example =
    confusion_matrix-counts labels predictions 2 refl
      (omega arith, (omega arith, (omega arith, tt)))
      (omega arith, (omega arith, (omega arith, tt)))
