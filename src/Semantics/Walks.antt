-- ===== src/Semantics/Walks.antt =====
-- Walks over adjacent faces in cad2ml/semantics/recognizer.py, with a stack of faces to visit. The last
-- element of a Python list is the head of a stack here.
pub mod Components
pub mod Worklist
use cad2ml.Prelude.{
  ℕ, zero, suc, ◌+◌, Bool, true, false, not, ◌&&◌, ◌||◌, List, [], ◌∷◌, ◌++◌, Option, none, some,
  String, str_eq, if◌then◌else◌, contains, keep, length, map, ◌==◌, any,
}
use mathlib.Core.List.{reverse}
use cad2ml.Prelude.Options.{◌>>=◌, each, each_true}
use cad2ml.Prelude.Texts.{add_text, is_subset, sorted, set_of}
use cad2ml.Semantics.Records.{Floats, FaceRecord, FeatureType, plane, cone, get_key, default}
use cad2ml.Semantics.Context.{
  Ctx, face, parallel, normal_or_zero, unit, direction, is_plane, is_cone,
}

pub data Walked {ℓ} (A : Type ℓ) : Type ℓ where
  done : A → Walked A
  key_error : Walked A
  out_of_fuel : Walked A

abbrev pub to_option {ℓ} : {A : Type ℓ} → Walked A → Option A
to_option (done a) = some a
to_option key_error = none
to_option out_of_fuel = none

-- The loop that `_connected` and the ring of a pocket share: the faces seen, and those to visit.
module _ (neighbours : String → Option (List String)) (test : String → String → Option Bool) where
  unfoldable pub offer :
      String → List String → List String → List String → Option (List String × List String)
  offer cur [] seen stack = some (seen, stack)
  offer cur (n ∷ ns) seen stack =
      if contains seen n then offer cur ns seen stack else (elim (test cur n) [
        | none ↦ none
        | some true ↦ offer cur ns (n ∷ seen) (n ∷ stack)
        | some false ↦ offer cur ns seen stack
      ])

  unfoldable pub walk :
      ℕ → List String → List String → List String → Walked (List String × List String)
  unfolding offer
  walk fuel seen [] visited = done (seen, visited)
  walk zero seen (c ∷ stack) visited = out_of_fuel
  walk (suc fuel) seen (c ∷ stack) visited = elim (neighbours c) [
    | none ↦ key_error
    | some ns ↦ elim (offer c ns seen stack) [
      | none ↦ key_error
      | some (seen', stack') ↦ walk fuel seen' stack' (visited ++ c ∷ [])
    ]
  ]

-- `others.add(i)` on a set of numbers, and the ids that stand for one segment.
abbrev pub add_segment : ℕ → List ℕ → List ℕ
add_segment i others = if any (λ j. i == j) others then others else i ∷ others

abbrev pub segment_ids : ℕ → List (String × ℕ) → List String
segment_ids i [] = []
segment_ids i ((k, j) ∷ rest) = if i == j then k ∷ segment_ids i rest else segment_ids i rest

module _ (F : Floats) (ctx : Ctx F) where
  abbrev pub adjacent : String → Option (List String)
  adjacent k = elim (face F ctx k) [ none ↦ none | some f ↦ some f.adjacent_face_ids ]

  -- The inner loop of `_connected`: the faces seen after it, and the component of `f`.
  unfoldable pub component_of :
      List String → String → List String → Walked (List String × List String)
  unfolding walk
  component_of ids f seen =
      walk adjacent (λ cur n. some (contains ids n)) (suc (length ids)) (f ∷ seen) (f ∷ []) []

  -- `_connected` on the ids of the faces: the components, each in the order of its visits.
  unfoldable pub connected_from :
      List String → List String → List String → Walked (List (List String))
  connected_from ids [] seen = done []
  connected_from ids (f ∷ fs) seen =
      if contains seen f then connected_from ids fs seen else (elim (component_of ids f seen) [
        | key_error ↦ key_error
        | out_of_fuel ↦ out_of_fuel
        | done (seen', comp) ↦ elim (connected_from ids fs seen') [
          | key_error ↦ key_error
          | out_of_fuel ↦ out_of_fuel
          | done comps ↦ done (comp ∷ comps)
        ]
      ])

  unfoldable pub connected : List String → Walked (List (List String))
  unfolding connected_from
  connected ids = connected_from ids ids []

  -- `_coaxial_transition_face`: also the test of `_closing_floor`.
  unfoldable pub is_coaxial : FaceRecord F → List F.R → List F.R → Option Bool
  is_coaxial f ax o =
      if is_plane f.surface_type
      then some (parallel F ctx (normal_or_zero F f) ax)
      else if is_cone f.surface_type
      then (direction F "axis" f >>= λ a. direction F "axis_origin" f >>= λ origin.
          let d : List F.R = F.minus (default origin (get_key "apex" f.vectors)) o in
          some (
            parallel F ctx (unit F a) ax
            && F.lt (F.norm (F.minus d (F.scale (F.dot d ax) ax))) (F.lit "1e-2")))
      else some false

  -- The loop of `_closing_floor`; `left` is 9 less the size of the floor, which is refused beyond 8.
  -- `some none` is the early return of `[]`.
  unfoldable pub floor_loop :
      ℕ
      → List String
      → List String
      → List String
      → List F.R
      → List F.R
      → Option (Option (List String))
  unfolding is_coaxial
  floor_loop left [] floor_ wall ax o = some (some floor_)
  floor_loop zero (k ∷ frontier) floor_ wall ax o =
      if contains floor_ k || contains wall k
      then floor_loop zero frontier floor_ wall ax o
      else (face F ctx k >>= λ f. is_coaxial f ax o >>= λ ok. some none)
  floor_loop (suc left) (k ∷ frontier) floor_ wall ax o =
      if contains floor_ k || contains wall k
      then floor_loop (suc left) frontier floor_ wall ax o
      else (face F ctx k >>= λ f. is_coaxial f ax o >>= λ ok. elim ok [
        | false ↦ some none
        | true ↦
            floor_loop left
              (reverse (
                  keep (λ n. not (contains wall n) && not (contains (k ∷ floor_) n))
                    f.adjacent_face_ids)
                ++ frontier)
              (k ∷ floor_) wall ax o
      ])

  -- All faces of the set have their neighbours in the other set.
  abbrev pub all_inside : List String → List String → Option Bool
  all_inside ids within =
      each_true (λ k. face F ctx k >>= λ f. some (is_subset f.adjacent_face_ids within)) ids

  unfoldable pub closing_floor :
      List String → List String → List F.R → List F.R → Option (List String)
  unfolding floor_loop
  closing_floor start wall ax o = floor_loop 9 (reverse start) [] wall ax o >>= λ r. elim r [
    | none ↦ some []
    | some floor_ ↦
        all_inside floor_ (wall ++ floor_) >>= λ closes. some (if closes then sorted floor_ else [])
  ]

  -- The loop of `_step_to_segment`: the transition faces and the segments met; `left` is 9 less the number of
  -- the former.
  unfoldable pub step_loop :
      ℕ
      → List String
      → List String
      → List ℕ
      → List String
      → List (String × ℕ)
      → List F.R
      → List F.R
      → Option (Option (List String × List ℕ))
  unfolding is_coaxial
  step_loop left [] trans others own seg_of ax o = some (some (trans, others))
  step_loop zero (k ∷ frontier) trans others own seg_of ax o =
      if contains trans k || contains own k
      then step_loop zero frontier trans others own seg_of ax o
      else (elim (get_key k seg_of) [
        | some i ↦ step_loop zero frontier trans (add_segment i others) own seg_of ax o
        | none ↦ face F ctx k >>= λ f. is_coaxial f ax o >>= λ ok. some none
      ])
  step_loop (suc left) (k ∷ frontier) trans others own seg_of ax o =
      if contains trans k || contains own k
      then step_loop (suc left) frontier trans others own seg_of ax o
      else (elim (get_key k seg_of) [
        | some i ↦ step_loop (suc left) frontier trans (add_segment i others) own seg_of ax o
        | none ↦ face F ctx k >>= λ f. is_coaxial f ax o >>= λ ok. elim ok [
          | false ↦ some none
          | true ↦
              step_loop left
                (reverse (
                    keep (λ n. not (contains own n) && not (contains (k ∷ trans) n))
                      f.adjacent_face_ids)
                  ++ frontier)
                (k ∷ trans) others own seg_of ax o
        ]
      ])

  -- The transition faces and the one segment they lead to, if there is one.
  abbrev pub one_step :
      List String → List ℕ → List String → List (String × ℕ) → Option (Option (List String × ℕ))
  one_step [] others own seg_of = some none
  one_step (t ∷ trans) (i ∷ []) own seg_of =
      all_inside (t ∷ trans) (own ++ (t ∷ trans) ++ segment_ids i seg_of) >>= λ closes.
      some (if closes then some (sorted (t ∷ trans), i) else none)
  one_step (t ∷ trans) _ own seg_of = some none

  unfoldable pub step_to_segment :
      List String
      → List String
      → List F.R
      → List F.R
      → List (String × ℕ)
      → Option (Option (List String × ℕ))
  unfolding step_loop
  step_to_segment start own ax o seg_of = step_loop 9 (reverse start) [] [] own seg_of ax o >>= λ r.
      elim r [ none ↦ some none | some (trans, others) ↦ one_step trans others own seg_of ]
