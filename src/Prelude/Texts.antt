-- ===== src/Prelude/Texts.antt =====
-- Sets of texts, and lists of texts in order.
use Prim.Native.Nat.{Ordering}
use Prim.Native.String.{String, compare}
use mathlib.Core.Bool.{Bool, true, false}
use mathlib.Core.List.{List, [], ◌∷◌}
use cad2ml.Prelude.Tests.{if◌then◌else◌}
use cad2ml.Prelude.Lists.{contains, keep, all}

-- A set is a list in which `add_text` puts nothing twice.
abbrev pub add_text : String → List String → List String
add_text x xs = if contains xs x then xs else x ∷ xs

abbrev pub set_of : List String → List String
set_of [] = []
set_of (x ∷ xs) = add_text x (set_of xs)

-- `xs <= ys` and `xs & ys` of sets.
abbrev pub is_subset : List String → List String → Bool
is_subset xs ys = all (contains ys) xs

abbrev pub common : List String → List String → List String
common xs ys = keep (contains ys) xs

abbrev pub insert_text : String → List String → List String
insert_text x [] = x ∷ []
insert_text x (y ∷ ys) = elim (compare x y) [
  | Ordering.gt ↦ y ∷ insert_text x ys
  | Ordering.lt ↦ x ∷ y ∷ ys
  | Ordering.eq ↦ x ∷ y ∷ ys
]

-- `sorted(xs)`
abbrev pub sorted : List String → List String
sorted [] = []
sorted (x ∷ xs) = insert_text x (sorted xs)

abbrev pub sorted_set : List String → List String
sorted_set xs = sorted (set_of xs)

-- `xs < ys` on lists of texts.
abbrev pub less_texts : List String → List String → Bool
less_texts [] [] = false
less_texts [] (y ∷ ys) = true
less_texts (x ∷ xs) [] = false
less_texts (x ∷ xs) (y ∷ ys) = elim (compare x y) [
  | Ordering.lt ↦ true
  | Ordering.gt ↦ false
  | Ordering.eq ↦ less_texts xs ys
]

abbrev pub insert_texts : List String → List (List String) → List (List String)
insert_texts x [] = x ∷ []
insert_texts x (y ∷ ys) = if less_texts y x then y ∷ insert_texts x ys else x ∷ y ∷ ys

abbrev pub sorted_lists : List (List String) → List (List String)
sorted_lists [] = []
sorted_lists (x ∷ xs) = insert_texts x (sorted_lists xs)
