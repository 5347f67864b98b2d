-- ===== src/Storage/Paths.antt =====
-- Keys of cad2ml/storage/base.py as lists of their segments.
use text.Mathlib.TextPositions.{eq_refl}
use cad2ml.Prelude.{
  ◌≡◌, refl, Bool, true, false, ◌&&◌, List, [], ◌∷◌, ◌++◌, String, str_eq, eq_iff, arith,
}

abbrev pub Path_ : Type 0
Path_ = List String

unfoldable pub same_path : Path_ → Path_ → Bool
same_path [] [] = true
same_path [] (y ∷ ys) = false
same_path (x ∷ xs) [] = false
same_path (x ∷ xs) (y ∷ ys) = str_eq x y && same_path xs ys

-- The key itself, or one below it.
unfoldable pub is_under : Path_ → Path_ → Bool
is_under [] j = true
is_under (x ∷ xs) [] = false
is_under (x ∷ xs) (y ∷ ys) = str_eq x y && is_under xs ys

-- A key below `p`, moved below `q`.
unfoldable pub rebase : Path_ → Path_ → Path_ → Path_
rebase [] q j = q ++ j
rebase (x ∷ xs) q [] = q
rebase (x ∷ xs) q (y ∷ ys) = rebase xs q ys

pub same_path_refl : (p : Path_) → same_path p p ≡ true
unfolding same_path
same_path_refl [] = refl
same_path_refl (x ∷ xs) = rw (eq_refl x) (same_path_refl xs)

pub same_path→eq : (p q : Path_) → same_path p q ≡ true → p ≡ q
unfolding same_path
same_path→eq [] [] h = refl
same_path→eq [] (y ∷ ys) h = cc
same_path→eq (x ∷ xs) [] h = cc
same_path→eq (x ∷ xs) (y ∷ ys) h = ground (arith, eq_iff x y, same_path→eq xs ys)

pub is_under-append : (p r : Path_) → is_under p (p ++ r) ≡ true
unfolding is_under
is_under-append [] r = refl
is_under-append (x ∷ xs) r = rw (eq_refl x) (is_under-append xs r)

pub is_under_refl : (p : Path_) → is_under p p ≡ true
unfolding is_under
is_under_refl [] = refl
is_under_refl (x ∷ xs) = rw (eq_refl x) (is_under_refl xs)

pub is_under_trans :
    (p q r : Path_) → is_under p q ≡ true → is_under q r ≡ true → is_under p r ≡ true
unfolding is_under
is_under_trans [] q r h k = refl
is_under_trans (x ∷ xs) [] r h k = cc
is_under_trans (x ∷ xs) (y ∷ ys) [] h k = cc
is_under_trans (x ∷ xs) (y ∷ ys) (z ∷ zs) h k =
    ground (arith, eq_iff x y, eq_iff y z, eq_iff x z, is_under_trans xs ys zs)

pub rebase-append : (p q r : Path_) → rebase p q (p ++ r) ≡ q ++ r
unfolding rebase
rebase-append [] q r = refl
rebase-append (x ∷ xs) q r = rebase-append xs q r

pub append-rebase : (p q j : Path_) → is_under p j ≡ true → p ++ rebase p [] j ≡ j
unfolding is_under rebase
append-rebase [] q j h = refl
append-rebase (x ∷ xs) q [] h = cc
append-rebase (x ∷ xs) q (y ∷ ys) h = ground (arith, eq_iff x y, append-rebase xs q ys)

pub rebase-from : (p q j : Path_) → is_under p j ≡ true → rebase p q j ≡ q ++ rebase p [] j
unfolding is_under rebase
rebase-from [] q j h = refl
rebase-from (x ∷ xs) q [] h = cc
rebase-from (x ∷ xs) q (y ∷ ys) h = rebase-from xs q ys (ground arith)

-- Renaming back and forth.
pub rebase-rebase : (p q j : Path_) → is_under p j ≡ true → rebase q p (rebase p q j) ≡ j
rebase-rebase p q j h =
    rw (rebase-from p q j h, rebase-append q p (rebase p [] j)) (append-rebase p q j h)

pub is_under-rebase : (p q j : Path_) → is_under p j ≡ true → is_under q (rebase p q j) ≡ true
is_under-rebase p q j h = rw (rebase-from p q j h) (is_under-append q (rebase p [] j))

-- Two keys of which neither lies below the other have no key below both.
pub is_under_apart :
    (a b r : Path_) → is_under a b ≡ false → is_under b a ≡ false → is_under a (b ++ r) ≡ false
unfolding is_under
is_under_apart [] b r h k = cc
is_under_apart (x ∷ xs) [] r h k = cc
is_under_apart (x ∷ xs) (y ∷ ys) r h k =
    ground (arith, eq_iff x y, eq_iff y x, is_under_apart xs ys r)

pub rebase_apart :
    (p q j : Path_)
    → is_under p j ≡ true
    → is_under p q ≡ false
    → is_under q p ≡ false
    → is_under p (rebase p q j) ≡ false
rebase_apart p q j h a b = rw (rebase-from p q j h) (is_under_apart p q (rebase p [] j) a b)
