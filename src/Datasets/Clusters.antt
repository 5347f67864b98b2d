-- ===== src/Datasets/Clusters.antt =====
-- `is_near_duplicate`, `near_duplicate_clusters` and `_UF` of cad2ml/datasets/builder.py. Numbers are the parameter `F`.
use Prim.Native.Nat.{Ordering}
use Prim.Native.String.{compare}
use cad2ml.Prelude.{
  Bool, false, ◌&&◌, ◌||◌, List, [], ◌∷◌, ◌++◌, Option, some, String, str_eq, if◌then◌else◌, length,
  keep, ltb, map,
}
use cad2ml.Prelude.Options.{◌>>=◌}
use cad2ml.Prelude.Texts.{sorted, sorted_lists}
use cad2ml.Prelude.Forest.{unions, found}
use cad2ml.Semantics.Records.{Floats, get_key}

-- `(max(a, b), min(a, b))`: the larger root becomes the child.
abbrev pub ordered : Ordering → String → String → String × String
ordered Ordering.lt a b = (b, a)
ordered Ordering.gt a b = (a, b)
ordered Ordering.eq a b = (a, b)

abbrev pub larger_first : String → String → String × String
larger_first a b = ordered (compare a b) a b

-- The parents after the unions of `pairs`, and the set of a key; a path has at most one step for each union.
unfoldable pub union_all : List (String × String) → Option (String → String)
union_all pairs = unions str_eq larger_first (length pairs) (λ x. x) pairs

abbrev pub set_key : List (String × String) → (String → String) → String → Option String
set_key pairs parent x = found str_eq (length pairs) parent x

module _ (F : Floats) where
  pub record Signature : Type 0 where
    pub volume : F.R
    pub area : F.R
    pub dims : F.R × (F.R × F.R)

  -- `abs(a - b) > rtol * max(abs(a), abs(b))`
  abbrev pub differs : F.R → F.R → Bool
  differs a b = F.lt (F.mul (F.lit "2e-3") (F.max (F.abs a) (F.abs b))) (F.abs (F.sub a b))

  abbrev pub near : F.R → F.R → Bool
  near x y = F.le (F.abs (F.sub x y)) (F.add (F.lit "0.5") (F.mul (F.lit "1e-3") (F.max x y)))

  unfoldable pub is_near_duplicate : Signature → Signature → Bool
  is_near_duplicate a b =
      if differs a.volume b.volume || differs a.area b.area
      then false
      else near a.dims.0 b.dims.0 && near a.dims.1.0 b.dims.1.0 && near a.dims.1.1 b.dims.1.1

  -- The near duplicates of `x` among the later ids; `sigs[x]` is there, since the ids are its keys.
  unfoldable pub pairs_with :
      List (String × Signature) → String → List String → Option (List (String × String))
  unfolding is_near_duplicate
  pairs_with sigs x [] = some []
  pairs_with sigs x (y ∷ ys) = get_key x sigs >>= λ a. get_key y sigs >>= λ b.
      pairs_with sigs x ys >>= λ rest. some (if is_near_duplicate a b then (x, y) ∷ rest else rest)

  unfoldable pub near_pairs :
      List (String × Signature) → List String → Option (List (String × String))
  unfolding pairs_with
  near_pairs sigs [] = some []
  near_pairs sigs (x ∷ xs) =
      pairs_with sigs x xs >>= λ here. near_pairs sigs xs >>= λ rest. some (here ++ rest)

  -- `groups[uf.find(x)].append(x)`
  abbrev pub add_to_group :
      String → String → List (String × List String) → List (String × List String)
  add_to_group root x [] = (root, x ∷ []) ∷ []
  add_to_group root x ((r, xs) ∷ groups) =
      if str_eq root r then (r, xs ++ x ∷ []) ∷ groups else (r, xs) ∷ add_to_group root x groups

  unfoldable pub groups_from :
      (String → Option String)
      → List String
      → List (String × List String)
      → Option (List (String × List String))
  groups_from root [] groups = some groups
  groups_from root (x ∷ xs) groups = root x >>= λ r. groups_from root xs (add_to_group r x groups)

  unfoldable pub near_duplicate_clusters : List (String × Signature) → Option (List (List String))
  unfolding near_pairs union_all groups_from
  near_duplicate_clusters sigs =
      let ids : List String = sorted (map (λ (p : String × Signature). p.0) sigs) in
      near_pairs sigs ids >>= λ pairs. union_all pairs >>= λ parent.
      groups_from (set_key pairs parent) ids [] >>= λ groups. some (
        sorted_lists (
          map sorted
            (keep (λ xs. ltb 1 (length xs)) (map (λ (g : String × List String). g.1) groups))))
