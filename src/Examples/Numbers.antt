-- ===== src/Examples/Numbers.antt =====
-- Natural numbers in the place of the floating-point ones, for examples of the recognizer and the datasets.
use cad2ml.Prelude.{
  ℕ, ◌+◌, ◌-◌, ◌*◌, ◌/◌, false, List, [], ◌∷◌, String, str_eq, if◌then◌else◌, ltb, leb, ◌==◌,
}
use cad2ml.Semantics.Records.{Floats}

-- "0" and what is less than one half are 0, other texts of the source 1 or 2.
abbrev pub number_of : String → ℕ
number_of s =
    if str_eq s "2" then 2 else if str_eq s "0.6" then 1 else if str_eq s "1" then 1 else 0

abbrev pub first_entry : List ℕ → ℕ
first_entry [] = 0
first_entry (x ∷ xs) = x

abbrev pub naturals : Floats
naturals = record {
  R = ℕ;
  lit = number_of;
  of_nat = λ n. n;
  pi = 3;
  nan = 0;
  add = λ a b. a + b;
  sub = λ a b. a - b;
  mul = λ a b. a * b;
  div = λ a b. a / b;
  abs = λ a. a;
  max = λ a b. if leb a b then b else a;
  min = λ a b. if leb a b then a else b;
  sin = λ a. a;
  cos = λ a. a;
  radians = λ a. a;
  degrees = λ a. a;
  lt = ltb;
  le = leb;
  eq = λ a b. a == b;
  round = λ x n. x;
  round_centi = λ x. (false, x);
  of_centi = λ p. p.1;
  dot = λ v w. first_entry v * first_entry w;
  norm = first_entry;
  minus = λ v w. (first_entry v - first_entry w) ∷ [];
  scale = λ a v. (a * first_entry v) ∷ [];
  largest_abs = first_entry;
  abs_vector = λ v. v;
  least = λ vs. 0 ∷ [];
  greatest = λ vs. 10 ∷ [];
}
