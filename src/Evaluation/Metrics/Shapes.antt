-- ===== src/Evaluation/Metrics/Shapes.antt =====
-- The matrix of cad2ml/evaluation/metrics.py is computed when all labels are classes.
use cad2ml.Prelude.{ℕ, zero, suc, ◌≡◌, refl, ◌∙◌, List, [], ◌∷◌, some, arith, ◌<◌, length, All}
use cad2ml.Evaluation.Metrics.{Matrix, zero_row, zero_rows, bump_row, bump, count_pairs}

-- A matrix of `k` rows of `n` numbers.
abbrev pub Shape : ℕ → ℕ → Matrix → Type 0
Shape k n m = (length m ≡ k) × All (λ (r : List ℕ). length r ≡ n) m

bump_row-defined :
    (p : ℕ) (r : List ℕ)
    → p < length r
    → (r' : List ℕ) × (bump_row p r ≡ some r') × (length r' ≡ length r)
unfolding bump_row
bump_row-defined p [] h = absurd (omega (arith, h))
bump_row-defined zero (x ∷ xs) h = (suc x ∷ xs, refl, refl)
bump_row-defined (suc p) (x ∷ xs) h =
    let (ys, q, l) = bump_row-defined p xs (omega (arith, h)) in
    (x ∷ ys, rw (q, bump_row) refl, omega (arith, l))

bump-Shape :
    (t p k n : ℕ) (m : Matrix)
    → Shape k n m
    → t < k
    → p < n
    → (m' : Matrix) × (bump t p m ≡ some m') × Shape k n m'
unfolding bump
bump-Shape t p k n [] s h g = absurd (omega (arith, s.0, h))
bump-Shape zero p k n (r ∷ rs) s h g =
    let (r', q, l) = bump_row-defined p r (omega (arith, s.1.0, g)) in
    (r' ∷ rs, rw (q, bump) refl, (s.0, (l ∙ s.1.0, s.1.1)))
bump-Shape (suc t) p k n (r ∷ rs) s h g =
    let (rs', q, (l, a)) =
      bump-Shape t p (length rs) n rs (refl, s.1.1) (omega (arith, s.0, h)) g in
    (r ∷ rs', rw (q, bump) refl, (omega (arith, l, s.0), (s.1.0, a)))

pub count_pairs-defined :
    (n : ℕ) (ts ps : List ℕ) (m : Matrix)
    → Shape n n m
    → length ts ≡ length ps
    → All (λ t. t < n) ts
    → All (λ p. p < n) ps
    → (m' : Matrix) × (count_pairs ts ps m ≡ some m')
unfolding count_pairs
count_pairs-defined n [] [] m s l a b = (m, refl)
count_pairs-defined n [] (p ∷ ps) m s l a b = absurd (omega (arith, l))
count_pairs-defined n (t ∷ ts) [] m s l a b = absurd (omega (arith, l))
count_pairs-defined n (t ∷ ts) (p ∷ ps) m s l a b =
    let (m₁, q, s₁) = bump-Shape t p n n m s a.0 b.0 in
    let (m', r) = count_pairs-defined n ts ps m₁ s₁ (omega (arith, l)) a.1 b.1 in
    (m', rw (q, count_pairs) r)

zero_row-length : (n : ℕ) → length (zero_row n) ≡ n
zero_row-length zero = refl
zero_row-length (suc n) = omega (arith, zero_row-length n)

pub zero_rows-Shape : (k n : ℕ) → Shape k n (zero_rows k n)
zero_rows-Shape zero n = (refl, tt)
zero_rows-Shape (suc k) n =
    let (l, a) = zero_rows-Shape k n in (omega (arith, l), (zero_row-length n, a))
