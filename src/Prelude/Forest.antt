-- ===== src/Prelude/Forest.antt =====
-- Disjoint sets as trees of parents: `_UF` in cad2ml/datasets/builder.py and `find` in `_recognize_holes` of
-- cad2ml/semantics/recognizer.py. A key without an entry is its own parent, as `setdefault` makes it.
pub mod Roots
pub mod Unions
use Prim.Native.Nat.{ℕ, zero, suc}
use mathlib.Core.Bool.{Bool, true, false}
use mathlib.Core.Option.{Option, none, some}
use mathlib.Core.List.{List, [], ◌∷◌}
use cad2ml.Prelude.Tests.{if◌then◌else◌}
use cad2ml.Prelude.Options.{◌>>=◌}

module _ {ℓ} {K : Type ℓ} (same : K → K → Bool) where
  abbrev pub set_parent : K → K → (K → K) → K → K
  set_parent x y p k = if same x k then y else p k

  -- `find`, whose loop halves the path; `none` is the end of the fuel.
  unfoldable pub find : ℕ → (K → K) → K → Option ((K → K) × K)
  find zero p x = if same (p x) x then some (p, x) else none
  find (suc fuel) p x = elim (same (p x) x) [
    | true ↦ some (p, x)
    | false ↦ find fuel (set_parent x (p (p x)) p) (p (p x))
  ]

  -- The key that `find` returns, without the parents that it leaves.
  abbrev pub found : ℕ → (K → K) → K → Option K
  found fuel p x = find fuel p x >>= λ r. some r.1

  -- `union`, where `pick` orders the two roots: the first becomes the child of the second.
  unfoldable pub union : (K → K → K × K) → ℕ → (K → K) → K → K → Option (K → K)
  unfolding find
  union pick fuel p a b = find fuel p a >>= λ ra. find fuel ra.0 b >>= λ rb.
      some (if same ra.1 rb.1 then rb.0 else set_parent (pick ra.1 rb.1).0 (pick ra.1 rb.1).1 rb.0)

  unfoldable pub unions : (K → K → K × K) → ℕ → (K → K) → List (K × K) → Option (K → K)
  unfolding union
  unions pick fuel p [] = some p
  unions pick fuel p ((a, b) ∷ rest) = union pick fuel p a b >>= λ q. unions pick fuel q rest
