-- ===== src/Datasets/Splits/Leakage.antt =====
-- The guarantees of the splits in cad2ml/datasets/builder.py: no unit crosses splits, and near duplicates share a unit.
use Prim.Native.Nat.{Ordering}
use Prim.Native.String.{compare}
use cad2ml.Prelude.{
  ℕ, ◌+◌, ◌≡◌, refl, sym, ap, ◌∙◌, ◌⊎◌, inl, inr, Bool, true, false, List, [], ◌∷◌, Option, some,
  String, str_eq, eq_iff, arith, length, All, All-map, Bool-cases,
}
use text.Mathlib.TextPositions.{eq_refl}
use cad2ml.Prelude.Options.{bind-some, some_injective}
use cad2ml.Prelude.Forest.Unions.{start-IsRooted, unions-joins, found_total, found-one}
use cad2ml.Semantics.Records.{get_key}
use cad2ml.Datasets.Clusters.{union_all, set_key, larger_first, ordered}
use cad2ml.Datasets.Splits.{
  Member, Placed, add_split, seen_from, crossing, check_leakage, place, unit_of, split_samples,
  groups_by_id, cluster_pairs, units_from, assign_splits,
}

ordered-cases : (o : Ordering) (a b : String) → (ordered o a b ≡ (a, b)) ⊎ (ordered o a b ≡ (b, a))
ordered-cases Ordering.lt a b = inr refl
ordered-cases Ordering.gt a b = inl refl
ordered-cases Ordering.eq a b = inl refl

larger_first-cases : (a b : String) → (larger_first a b ≡ (a, b)) ⊎ (larger_first a b ≡ (b, a))
larger_first-cases a b = ordered-cases (compare a b) a b

abbrev pub SetsJoined : List (String × String) → Type 0
SetsJoined pairs =
    (parent : String → String) × ((union_all pairs ≡ some parent)
      × (((x : String) → (r : String) × (set_key pairs parent x ≡ some r))
          × All (λ (e : String × String). set_key pairs parent e.0 ≡ set_key pairs parent e.1)
              pairs))

-- The unions of pairs of keys return, each key then has a set, and the two keys of a pair have the same one.
pub sets_joined : (pairs : List (String × String)) → SetsJoined pairs
unfolding union_all
sets_joined pairs =
    let (q, (e, (m, js))) =
      unions-joins str_eq eq_iff larger_first larger_first-cases 0 (length pairs) (λ x. x) pairs
        (start-IsRooted str_eq eq_iff) (omega arith) in
    (
      q,
      (
        e,
        (
          λ x. found_total str_eq eq_iff (0 + length pairs) (length pairs) q x m.0 (omega arith),
          All-map _ _ pairs
              (λ x h.
                found-one str_eq eq_iff (0 + length pairs) (length pairs) q x.0 x.1 m.0
                  (omega arith) h)
              js,
        ),
      ),
    )

-- Each key was seen with one split, the one of the table.
abbrev HasOneSplit : List (String × String) → String × List String → Type 0
HasOneSplit splits e = (sp : String) × ((get_key e.0 splits ≡ some sp) × (e.1 ≡ sp ∷ []))

add_split-one :
    (splits : List (String × String)) (k sp : String) (seen : List (String × List String))
    → get_key k splits ≡ some sp
    → All (HasOneSplit splits) seen
    → All (HasOneSplit splits) (add_split k sp seen)
add_split-one splits k sp [] h a = ((sp, (h, refl)), tt)
add_split-one splits k sp ((j, sps) ∷ seen) h ((sp', (h', e)), rest) =
    elim (Bool-cases (str_eq j k)) [
      | inl q ↦
          let e' : sp' ≡ sp =
            some_injective sp' sp (sym h' ∙ ap (λ z. get_key z splits) ((eq_iff j k).0 q) ∙ h) in
          rw q ((sp', (h', rw (e, e', eq_refl sp) refl)), rest)
      | inr q ↦ rw q ((sp', (h', e)), add_split-one splits k sp seen h rest)
    ]

crossing-none :
    (splits : List (String × String)) (seen : List (String × List String))
    → All (HasOneSplit splits) seen
    → crossing seen ≡ []
crossing-none splits [] a = refl
crossing-none splits ((k, sps) ∷ seen) ((sp, (h, e)), rest) = rw e (crossing-none splits seen rest)

-- Samples whose split is the table's entry of their key do not leak.
leakage-none :
    (splits : List (String × String)) (key : Placed → String) (ss : List Placed)
    (seen : List (String × List String))
    → All (λ (s : Placed). get_key (key s) splits ≡ some s.split) ss
    → All (HasOneSplit splits) seen
    → crossing (seen_from key ss seen) ≡ []
unfolding seen_from
leakage-none splits key [] seen hs a = crossing-none splits seen a
leakage-none splits key (s ∷ ss) seen hs a =
    leakage-none splits key ss (add_split (key s) s.split seen) hs.1
      (add_split-one splits (key s) s.split seen hs.0 a)

module _ {G : Type 0} (permutation : G → ℕ → List ℕ × G) where
  -- What `place` has written into a sample.
  abbrev pub IsPlaced : (Member → Option String) → List (String × String) → Placed → Type 0
  IsPlaced unit splits s =
      (unit s.member ≡ some s.split_unit) × (get_key s.split_unit splits ≡ some s.split)

  pub place-IsPlaced :
      (unit : Member → Option String) (splits : List (String × String)) (ms : List Member)
      (ss : List Placed)
      → place permutation unit splits ms ≡ some ss
      → All (IsPlaced unit splits) ss
  unfolding place
  place-IsPlaced unit splits [] ss h = rw (sym (some_injective [] ss h)) tt
  place-IsPlaced unit splits (m ∷ ms) ss h =
      let (u, (hu, h1)) = bind-some (unit m) _ ss h in
      let (sp, (hs, h2)) = bind-some (get_key u splits) _ ss h1 in
      let (rest, (hr, e)) = bind-some (place permutation unit splits ms) _ ss h2 in
      rw (sym (some_injective _ ss e)) ((hu, hs), place-IsPlaced unit splits ms rest hr)

  family_unit :
      (by_family : Bool) (pairs : List (String × String)) (parent : String → String) (m : Member)
      (u : String)
      → by_family ≡ true
      → unit_of permutation by_family pairs parent m ≡ some u
      → m.family ≡ u
  family_unit true pairs parent m u e h = some_injective m.family u h
  family_unit false pairs parent m u e h = cc

  -- The steps of `split_samples` that came to an end.
  pub split_samples-steps :
      (g : G) (by_family : Bool) (clusters : List (List String)) (ms : List Member)
      (ss : List Placed)
      → split_samples permutation g by_family clusters ms ≡ some ss
      → (pairs : List (String × String)) × ((parent : String → String) × ((splits : List
              (String × String))
            × ((cluster_pairs permutation (groups_by_id permutation ms) clusters ≡ some pairs)
                × ((union_all pairs ≡ some parent)
                    × (place permutation (unit_of permutation by_family pairs parent) splits ms
                        ≡ some ss)))))
  unfolding split_samples
  split_samples-steps g by_family clusters ms ss h =
      let (pairs, (hp, h1)) =
        bind-some (cluster_pairs permutation (groups_by_id permutation ms) clusters) _ ss h in
      let (parent, (hu, h2)) = bind-some (union_all pairs) _ ss h1 in
      let (units, (_, h3)) =
        bind-some (units_from permutation (unit_of permutation by_family pairs parent) ms []) _ ss
          h2 in
      let (splits, (_, h4)) = bind-some (assign_splits permutation units g by_family) _ ss h3 in
      (pairs, (parent, (splits, (hp, (hu, h4)))))

  -- On samples that have been split the check for leakage finds no unit, nor, where families are the
  -- units, a family.
  pub split_samples-no_leak :
      (g : G) (by_family : Bool) (clusters : List (List String)) (ms : List Member)
      (ss : List Placed)
      → split_samples permutation g by_family clusters ms ≡ some ss
      → (check_leakage ss (λ s. s.split_unit) ≡ [])
        × (by_family ≡ true → check_leakage ss (λ s. s.member.family) ≡ [])
  unfolding check_leakage
  split_samples-no_leak g by_family clusters ms ss h =
      let (pairs, (parent, (splits, (_, (_, hl))))) =
        split_samples-steps g by_family clusters ms ss h in
      let placed : All (IsPlaced (unit_of permutation by_family pairs parent) splits) ss =
        place-IsPlaced (unit_of permutation by_family pairs parent) splits ms ss hl in
      (
        leakage-none splits (λ s. s.split_unit) ss [] (All-map _ _ ss (λ s q. q.1) placed) tt,
        λ e.
            leakage-none splits (λ s. s.member.family) ss []
              (All-map _ _ ss
                (λ s q. rw (family_unit by_family pairs parent s.member s.split_unit e q.0) q.1)
                placed)
              tt,
      )
