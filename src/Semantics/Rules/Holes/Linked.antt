-- ===== src/Semantics/Rules/Holes/Linked.antt =====
-- The stacks of bores in `_recognize_holes` of cad2ml/semantics/recognizer.py: `find` ends, and linked bores are in one stack.
use cad2ml.Prelude.{ℕ, ◌≡◌, inr, refl, some, List, ◌==◌, ==_iff, length, All, All-map, ◌+◌, arith}
use cad2ml.Prelude.Forest.Unions.{start-IsRooted, unions-joins, found_total, found-one}
use cad2ml.Semantics.Records.{Floats}
use cad2ml.Semantics.Rules.Holes.Stacks.{linked, child_first, stack_of}

abbrev pub StacksJoined : Floats → List (ℕ × ℕ) → Type 0
StacksJoined F links =
    (parent : ℕ → ℕ) × ((linked F links ≡ some parent)
      × (((i : ℕ) → (root : ℕ) × (stack_of F links parent i ≡ some root))
          × All (λ (e : ℕ × ℕ). stack_of F links parent e.0 ≡ stack_of F links parent e.1) links))

-- The unions of all links return, each bore then has a stack, and the two bores of a link have the same one.
pub stacks_joined : (F : Floats) (links : List (ℕ × ℕ)) → StacksJoined F links
unfolding linked
stacks_joined F links =
    let (q, (e, (m, js))) =
      unions-joins ◌==◌ ==_iff (child_first F) (λ a b. inr refl) 0 (length links) (λ i. i) links
        (start-IsRooted ◌==◌ ==_iff) (omega arith) in
    (
      q,
      (
        e,
        (
          λ i. found_total ◌==◌ ==_iff (0 + length links) (length links) q i m.0 (omega arith),
          All-map _ _ links
              (λ x h.
                found-one ◌==◌ ==_iff (0 + length links) (length links) q x.0 x.1 m.0 (omega arith)
                  h)
              js,
        ),
      ),
    )
