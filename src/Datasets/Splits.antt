-- ===== src/Datasets/Splits.antt =====
-- `assign_splits`, `check_leakage` and the splitting part of `build_dataset` in cad2ml/datasets/builder.py. numpy's generator
-- is the parameter: `permutation g n` is the next permutation of the numbers below `n` and the generator after it.
pub mod Leakage
pub mod Together
use cad2ml.Prelude.{
  ℕ, zero, suc, ◌+◌, ◌/◌, ◌%◌, ◌*◌, Bool, true, false, not, ◌&&◌, List, [], ◌∷◌, ◌++◌, Option, none,
  some, String, str_eq, if◌then◌else◌, length, keep, ltb, leb, map, ◌==◌,
}
use mathlib.Core.List.{take, drop}
use cad2ml.Prelude.Options.{◌>>=◌, each}
use cad2ml.Prelude.Texts.{sorted, sorted_set, add_text}
use cad2ml.Semantics.Records.{get_key, default}
use cad2ml.Datasets.Clusters.{union_all, set_key}

-- A sample of `included` as far as the splits read it.
pub record Member : Type 0 where
  pub sample_id : String
  pub group : String
  pub family : String

pub record Placed : Type 0 where
  pub member : Member
  pub split_unit : String
  pub split : String

abbrev pub nth_of {ℓ} : {A : Type ℓ} → List A → ℕ → Option A
nth_of [] i = none
nth_of (x ∷ xs) zero = some x
nth_of (x ∷ xs) (suc i) = nth_of xs i

-- `d[u] = f` for a dictionary in the order of its keys.
abbrev pub put_unit : String → String → List (String × String) → List (String × String)
put_unit u f [] = (u, f) ∷ []
put_unit u f ((v, g) ∷ units) = if str_eq u v then (v, f) ∷ units else (v, g) ∷ put_unit u f units

abbrev pub values_of : List (String × String) → List String
values_of units = map (λ (p : String × String). p.1) units

-- `max(1, round(n / 6))`; halves are rounded to the even number.
abbrev pub rounded_sixth : ℕ → ℕ
rounded_sixth n =
    if ltb (n % 6) 3
    then n / 6
    else if ltb 3 (n % 6)
    then suc (n / 6)
    else if (n / 6) % 2 == 0
    then n / 6
    else suc (n / 6)

abbrev pub held_out : ℕ → ℕ
held_out n = if ltb (rounded_sixth n) 1 then 1 else rounded_sixth n

-- `xs[:n]` and `xs[n:]`
abbrev pub first_of : ℕ → List String → List String
first_of zero xs = []
first_of (suc n) [] = []
first_of (suc n) (x ∷ xs) = x ∷ first_of n xs

abbrev pub rest_of : ℕ → List String → List String
rest_of zero xs = xs
rest_of (suc n) [] = []
rest_of (suc n) (x ∷ xs) = rest_of n xs

-- The units of a family, in the order of the units.
abbrev pub units_of : String → List (String × String) → List String
units_of f [] = []
units_of f ((u, g) ∷ units) = if str_eq f g then u ∷ units_of f units else units_of f units

-- The split of the `j`-th of `n` units in the `k`-th family.
unfoldable pub split_at : ℕ → ℕ → ℕ → String
split_at k j n =
    if j == 0 && leb 2 n
    then (if k % 2 == 0 then "val" else "test")
    else if j == 1 && leb 4 n
    then (if k % 2 == 0 then "test" else "val")
    else "train"

unfoldable pub split_units : ℕ → ℕ → ℕ → List String → List (String × String)
unfolding split_at
split_units k j n [] = []
split_units k j n (u ∷ us) = (u, split_at k j n) ∷ split_units k (suc j) n us

module _ {G : Type 0} (permutation : G → ℕ → List ℕ × G) where
  -- `[xs[i] for i in rng.permutation(len(xs))]`
  abbrev pub shuffled : G → List String → Option (List String × G)
  shuffled g xs = each (nth_of xs) (permutation g (length xs)).0 >>= λ ys.
      some (ys, (permutation g (length xs)).1)

  unfoldable pub split_families :
      ℕ → G → List String → List (String × String) → Option (List (String × String))
  unfolding split_units
  split_families k g [] units = some []
  split_families k g (fam ∷ fams) units = shuffled g (sorted (units_of fam units)) >>= λ r.
      split_families (suc k) r.1 fams units >>= λ rest.
      some (split_units k 0 (length r.0) r.0 ++ rest)

  unfoldable pub assign_splits : List (String × String) → G → Bool → Option (List (String × String))
  unfolding split_families
  assign_splits units g by_family = shuffled g (sorted_set (values_of units)) >>= λ r.
      let n : ℕ = held_out (length (sorted_set (values_of units))) in
      let split_of : List (String × String) =
        map (λ f. (f, "val")) (first_of n (rest_of n r.0))
        ++ map (λ f. (f, "test")) (first_of n r.0) in
      if by_family
      then some (map (λ (p : String × String). (p.0, default "train" (get_key p.1 split_of))) units)
      else split_families 0 r.1 r.0 units

  -- The pairs of groups that near duplicates join; `cluster[0]` of an empty cluster does not occur.
  unfoldable pub cluster_pairs :
      List (String × String) → List (List String) → Option (List (String × String))
  cluster_pairs group_of [] = some []
  cluster_pairs group_of ([] ∷ clusters) = none
  cluster_pairs group_of ((x ∷ xs) ∷ clusters) = get_key x group_of >>= λ a.
      each (λ y. get_key y group_of >>= λ b. some (a, b)) xs >>= λ here.
      cluster_pairs group_of clusters >>= λ rest. some (here ++ rest)

  abbrev pub groups_by_id : List Member → List (String × String)
  groups_by_id [] = []
  groups_by_id (m ∷ ms) = (m.sample_id, m.group) ∷ groups_by_id ms

  unfoldable pub units_from :
      (Member → Option String)
      → List Member
      → List (String × String)
      → Option (List (String × String))
  units_from unit_of [] units = some units
  units_from unit_of (m ∷ ms) units =
      unit_of m >>= λ u. units_from unit_of ms (put_unit u m.family units)

  unfoldable pub place :
      (Member → Option String) → List (String × String) → List Member → Option (List Placed)
  place unit_of splits [] = some []
  place unit_of splits (m ∷ ms) = unit_of m >>= λ u. get_key u splits >>= λ sp.
      place unit_of splits ms >>= λ rest.
      some (record { member = m; split_unit = u; split = sp } ∷ rest)

  -- The unit of a sample: its family, or the set of its group.
  abbrev pub unit_of : Bool → List (String × String) → (String → String) → Member → Option String
  unit_of by_family pairs parent m =
      if by_family then some m.family else set_key pairs parent m.group

  unfoldable pub split_samples : G → Bool → List (List String) → List Member → Option (List Placed)
  unfolding cluster_pairs union_all units_from assign_splits place
  split_samples g by_family clusters ms = cluster_pairs (groups_by_id ms) clusters >>= λ pairs.
      union_all pairs >>= λ parent. units_from (unit_of by_family pairs parent) ms [] >>= λ units.
      assign_splits units g by_family >>= λ splits. place (unit_of by_family pairs parent) splits ms

-- `seen[s[key]].add(s["split"])`
abbrev pub add_split : String → String → List (String × List String) → List (String × List String)
add_split k sp [] = (k, sp ∷ []) ∷ []
add_split k sp ((j, sps) ∷ seen) =
    if str_eq j k then (j, add_text sp sps) ∷ seen else (j, sps) ∷ add_split k sp seen

unfoldable pub seen_from :
    (Placed → String) → List Placed → List (String × List String) → List (String × List String)
seen_from key [] seen = seen
seen_from key (s ∷ ss) seen = seen_from key ss (add_split (key s) s.split seen)

abbrev pub crossing : List (String × List String) → List (String × List String)
crossing [] = []
crossing ((k, sps) ∷ seen) =
    if ltb 1 (length sps) then (k, sorted sps) ∷ crossing seen else crossing seen

unfoldable pub check_leakage : List Placed → (Placed → String) → List (String × List String)
unfolding seen_from
check_leakage ss key = crossing (seen_from key ss [])
