-- ===== src/Datasets/Splits/Together.antt =====
-- Near duplicates of cad2ml/datasets/builder.py lie in one split when the groups of designs are the units.
use mathlib.Core.Path.{subst}
use cad2ml.Prelude.{
  ℕ, ◌≡◌, sym, ap, ◌∙◌, inl, inr, true, false, List, [], ◌∷◌, ◌++◌, Option, some, String, str_eq,
  eq_iff, arith, contains, All, All-map, All-zip, Bool-cases,
}
use cad2ml.Prelude.Options.{◌>>=◌, each, bind-some, some_injective}
use cad2ml.Semantics.Records.{get_key}
use cad2ml.Datasets.Clusters.{set_key}
use cad2ml.Datasets.Splits.{
  Member, Placed, place, unit_of, split_samples, groups_by_id, cluster_pairs,
}
use cad2ml.Datasets.Splits.Leakage.{sets_joined, IsPlaced, place-IsPlaced, split_samples-steps}

-- The keys of a list with a group have all the set `r`.
abbrev HaveSet :
    List (String × String) → (String → Option String) → Option String → List String → Type 0
HaveSet group_of set r ids =
    (y b : String) → contains ids y ≡ true → get_key y group_of ≡ some b → set b ≡ r

abbrev pairs_from : List (String × String) → String → List String → Option (List (String × String))
pairs_from group_of a xs = each (λ y. get_key y group_of >>= λ b. some (a, b)) xs

module _ (group_of : List (String × String)) (set : String → Option String) where
  abbrev IsJoined : List (String × String) → Type 0
  IsJoined pairs = All (λ (e : String × String). set e.0 ≡ set e.1) pairs

  IsJoined-parts :
      (xs ys : List (String × String)) → IsJoined (xs ++ ys) → IsJoined xs × IsJoined ys
  IsJoined-parts [] ys h = (tt, h)
  IsJoined-parts (x ∷ xs) ys h = let (hx, hy) = IsJoined-parts xs ys h.1 in ((h.0, hx), hy)

  pairs-HaveSet :
      (a : String) (xs : List String) (here : List (String × String))
      → pairs_from group_of a xs ≡ some here
      → IsJoined here
      → HaveSet group_of set (set a) xs
  pairs-HaveSet a [] here h j y b q e = cc
  pairs-HaveSet a (x ∷ xs) here h j y b q e =
      let (p, (hp, h1)) = bind-some (get_key x group_of >>= λ b'. some (a, b')) _ here h in
      let (rest, (hr, er)) = bind-some (pairs_from group_of a xs) _ here h1 in
      let (b', (hb, ep)) = bind-some (get_key x group_of) _ p hp in
      let j' : IsJoined ((a, b') ∷ rest) =
        subst IsJoined
          (sym
            (ap (λ z. z ∷ rest) (some_injective (a, b') p ep) ∙ some_injective (p ∷ rest) here er))
          j in
      elim (Bool-cases (str_eq x y)) [
        | inl eq ↦
            ap set (
              some_injective b b'
                (sym e ∙ ap (λ z. get_key z group_of) (sym ((eq_iff x y).0 eq)) ∙ hb))
            ∙ sym j'.0
        | inr eq ↦ pairs-HaveSet a xs rest hr j'.1 y b (ground arith) e
      ]

module _ {G : Type 0} (permutation : G → ℕ → List ℕ × G) where
  clusters-HaveSet :
      (group_of : List (String × String)) (set : String → Option String)
      (clusters : List (List String)) (pairs : List (String × String))
      → cluster_pairs permutation group_of clusters ≡ some pairs
      → IsJoined group_of set pairs
      → All (λ c. (r : Option String) × HaveSet group_of set r c) clusters
  unfolding cluster_pairs
  clusters-HaveSet group_of set [] pairs h j = tt
  clusters-HaveSet group_of set ([] ∷ clusters) pairs h j = cc
  clusters-HaveSet group_of set ((x ∷ xs) ∷ clusters) pairs h j =
      let (a, (ha, h1)) = bind-some (get_key x group_of) _ pairs h in
      let (here, (hh, h2)) = bind-some (pairs_from group_of a xs) _ pairs h1 in
      let (rest, (hr, e)) = bind-some (cluster_pairs permutation group_of clusters) _ pairs h2 in
      let (jh, jr) =
        IsJoined-parts group_of set here rest
          (subst (IsJoined group_of set) (sym (some_injective (here ++ rest) pairs e)) j) in
      (
        (
          set a,
          λ y b q k. elim (Bool-cases (str_eq x y)) [
            | inl eq ↦ ap set (
                some_injective b a
                  (sym k ∙ ap (λ z. get_key z group_of) (sym ((eq_iff x y).0 eq)) ∙ ha))
            | inr eq ↦ pairs-HaveSet group_of set a xs here hh jh y b (ground arith) k
          ],
        ),
        clusters-HaveSet group_of set clusters rest hr jr,
      )

  -- The ids of the samples are distinct: each is found with its own group.
  abbrev pub AreKeyed : List Member → Type 0
  AreKeyed ms =
      All (λ (m : Member). get_key m.sample_id (groups_by_id permutation ms) ≡ some m.group) ms

  place-members :
      (P : Member → Type 0) (unit : Member → Option String) (splits : List (String × String))
      (ms : List Member) (ss : List Placed)
      → place permutation unit splits ms ≡ some ss
      → All P ms
      → All (λ (s : Placed). P s.member) ss
  unfolding place
  place-members P unit splits [] ss h a = rw (sym (some_injective [] ss h)) tt
  place-members P unit splits (m ∷ ms) ss h a =
      let (u, (hu, h1)) = bind-some (unit m) _ ss h in
      let (sp, (hs, h2)) = bind-some (get_key u splits) _ ss h1 in
      let (rest, (hr, e)) = bind-some (place permutation unit splits ms) _ ss h2 in
      rw (sym (some_injective _ ss e)) (a.0, place-members P unit splits ms rest hr a.1)

  abbrev pub ShareSplit : Placed → Placed → List String → Type 0
  ShareSplit s t c =
      contains c s.member.sample_id ≡ true
      → contains c t.member.sample_id ≡ true
      → s.split ≡ t.split

  -- When samples with distinct ids are split with groups as the units, those of one cluster of near
  -- duplicates get one split.
  pub near_duplicates_together :
      (g : G) (clusters : List (List String)) (ms : List Member) (ss : List Placed)
      → AreKeyed ms
      → split_samples permutation g false clusters ms ≡ some ss
      → All (λ s. All (λ t. All (ShareSplit s t) clusters) ss) ss
  near_duplicates_together g clusters ms ss keyed h =
      let (pairs, (parent, (splits, (hp, (hu, hl))))) =
        split_samples-steps permutation g false clusters ms ss h in
      let (parent', (hu', (_, joined))) = sets_joined pairs in
      let e : parent' ≡ parent = some_injective parent' parent (sym hu' ∙ hu) in
      let sets : All
          (λ c.
            (r : Option String) × HaveSet (groups_by_id permutation ms) (set_key pairs parent) r c)
          clusters =
        clusters-HaveSet (groups_by_id permutation ms) (set_key pairs parent) clusters pairs hp
          (subst (λ z. IsJoined (groups_by_id permutation ms) (set_key pairs z) pairs) e joined) in
      let unit : Member → Option String = unit_of permutation false pairs parent in
      let placed : All (IsPlaced permutation unit splits) ss =
        place-IsPlaced permutation unit splits ms ss hl in
      let named : All
          (λ (s : Placed).
            get_key s.member.sample_id (groups_by_id permutation ms) ≡ some s.member.group)
          ss =
        place-members (λ m. get_key m.sample_id (groups_by_id permutation ms) ≡ some m.group) unit
          splits ms ss hl keyed in
      let both : All
          (λ s.
            IsPlaced permutation unit splits s
            × (get_key s.member.sample_id (groups_by_id permutation ms) ≡ some s.member.group))
          ss =
        All-zip _ _ ss placed named in
      All-map _ _ ss
        (λ s fs.
          All-map _ _ ss
            (λ t ft.
              All-map _ _ clusters
                (λ c r cs ct.
                  let units : s.split_unit ≡ t.split_unit =
                    some_injective s.split_unit t.split_unit (
                      sym fs.0.0
                      ∙ r.1 s.member.sample_id s.member.group cs fs.1
                      ∙ sym (r.1 t.member.sample_id t.member.group ct ft.1)
                      ∙ ft.0.0) in
                  some_injective s.split t.split
                    (sym fs.0.1 ∙ ap (λ z. get_key z splits) units ∙ ft.0.1))
                sets)
            both)
        both
