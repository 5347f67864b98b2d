-- ===== src/Semantics/Rules/Holes/Features.antt =====
-- The last part of `_recognize_holes` in cad2ml/semantics/recognizer.py: the features of the stacks, and the merge
-- of the bores of one through hole.
use cad2ml.Prelude.{
  ℕ, zero, suc, Bool, true, false, not, ◌&&◌, List, [], ◌∷◌, ◌++◌, Option, none, some, String,
  if◌then◌else◌, map, keep, length, ◌==◌, contains, any,
}
use cad2ml.Prelude.Options.{◌>>=◌, each}
use cad2ml.Prelude.Texts.{sorted_set}
use cad2ml.Semantics.Records.{
  Floats, FaceRecord, FeatureRecord, FeatureType, Evidence, Params, number, through_hole,
  blind_hole, cylindrical_hole_wall, vector,
}
use cad2ml.Semantics.Context.{Ctx, face, parallel}
use cad2ml.Semantics.Rules.{check_of, feature_of, twice, ids_of}
use cad2ml.Semantics.Rules.Holes.Stacks.{
  EndKind, end_open, end_floor, end_step, End, Bore, links_from, linked, stack_of, stacks_from,
  members_of, range_from,
}

abbrev pub is_open_end : EndKind → Bool
is_open_end end_open = true
is_open_end _ = false

abbrev pub floor_faces : EndKind → List String
floor_faces (end_floor ks) = ks
floor_faces _ = []

abbrev pub is_same_stack : Option ℕ → Option ℕ → Bool
is_same_stack (some a) (some b) = a == b
is_same_stack _ _ = false

abbrev pub is_through : FeatureType → Bool
is_through through_hole = true
is_through _ = false

module _ (F : Floats) where
  -- One entry of `feats`.
  pub record Found : Type 0 where
    pub faces : List (FaceRecord F)
    pub diameter : F.R
    pub axis : List F.R
    pub axis_point : List F.R
    pub params : Params F
    pub ev : List (Evidence F)
    pub kind : FeatureType

  abbrev pub round_all : List F.R → List F.R
  round_all v = map (λ x. F.round x 6) v

  -- A step that links bore `k` to a bore of its own stack.
  abbrev pub is_linking : (ℕ → Option ℕ) → ℕ → EndKind → Bool
  is_linking root k (end_step trans to) = is_same_stack (root to) (root k)
  is_linking root k _ = false

  abbrev pub link_faces : (ℕ → Option ℕ) → ℕ → EndKind → List String
  link_faces root k (end_step trans to) = if is_same_stack (root to) (root k) then trans else []
  link_faces root k _ = []

  -- `extra`: the faces of the linking steps of the members.
  unfoldable pub extra_of_ends : (ℕ → Option ℕ) → ℕ → List (End F) → List String
  extra_of_ends root k [] = []
  extra_of_ends root k (e ∷ es) = link_faces root k e.kind ++ extra_of_ends root k es

  unfoldable pub extra_of : (ℕ → Option ℕ) → List (ℕ × Bore F) → List String
  unfolding extra_of_ends
  extra_of root [] = []
  extra_of root ((k, b) ∷ ms) = extra_of_ends root k b.ends ++ extra_of root ms

  -- The ends that neither link two bores nor open onto the face of such a step.
  unfoldable pub terminal_of : (ℕ → Option ℕ) → List String → List (ℕ × Bore F) → List (End F)
  terminal_of root extra [] = []
  terminal_of root extra ((k, b) ∷ ms) =
      keep (λ (e : End F). not (is_linking root k e.kind) && not (any (contains extra) e.nb)) b.ends
      ++ terminal_of root extra ms

  abbrev pub faces_of_members : List (ℕ × Bore F) → List (FaceRecord F)
  faces_of_members [] = []
  faces_of_members ((k, b) ∷ ms) = b.seg ++ faces_of_members ms

  abbrev pub floors_of : List (End F) → List String
  floors_of [] = []
  floors_of (e ∷ es) = floor_faces e.kind ++ floors_of es

  abbrev pub open_ends_of : List (End F) → List (End F)
  open_ends_of es = keep (λ (e : End F). is_open_end e.kind) es

  -- The distance between two ends.
  abbrev pub span_of : List (End F) → F.R
  span_of (a ∷ (b ∷ [])) = F.sub (F.max a.pos b.pos) (F.min a.pos b.pos)
  span_of _ = F.nan

  -- The kind of the hole, its last check and its last parameter.
  unfoldable pub verdict : List (End F) → FeatureType × (Evidence F × Params F)
  verdict terminal =
      if length terminal == 2 && length (open_ends_of terminal) == 2
      then (
        through_hole,
        (
          check_of F "both_ends_open_with_convex_rims" true,
          ("length_mm", number (F.round (span_of terminal) 6)) ∷ [],
        ),
      )
      else if length terminal == 2
          && length (open_ends_of terminal) == 1
          && not (length (floors_of terminal) == 0)
      then (
        blind_hole,
        (
          check_of F "one_open_end_and_one_closing_floor" true,
          ("depth_mm", number (F.round (span_of terminal) 6)) ∷ [],
        ),
      )
      else (cylindrical_hole_wall, (check_of F "end_conditions_consistent" false, []))

  -- What a counterbore adds to the parameters and the checks.
  abbrev pub counterbores : List (ℕ × Bore F) → Params F × List (Evidence F)
  counterbores [] = ([], [])
  counterbores (m ∷ ms) = (
    (
      "counterbore_diameters_mm",
      vector (map (λ (x : ℕ × Bore F). F.round (twice F x.1.radius) 6) (m ∷ ms)),
    )
        ∷ [],
    check_of F "coaxial_bores_linked_by_annular_steps" true ∷ [],
  )

  module _ (ctx : Ctx F) where
    -- One stack, whose first member is the bore with the least radius.
    unfoldable pub found_of : (ℕ → Option ℕ) → List (ℕ × Bore F) → Option Found
    unfolding extra_of terminal_of verdict
    found_of root [] = none
    found_of root ((k, b) ∷ ms) =
        let extra : List String = extra_of root ((k, b) ∷ ms) in
        let terminal : List (End F) = terminal_of root extra ((k, b) ∷ ms) in
        let v : FeatureType × (Evidence F × Params F) = verdict terminal in
        let c : Params F × List (Evidence F) = counterbores ms in
        each (face F ctx) (sorted_set (extra ++ floors_of terminal)) >>= λ more. some (record {
          faces = faces_of_members ((k, b) ∷ ms) ++ more;
          diameter = F.round (twice F b.radius) 6;
          axis = round_all b.along;
          axis_point = round_all b.point;
          params =
              ("diameter_mm", number (F.round (twice F b.radius) 6))
              ∷ ("axis", vector (round_all b.along))
              ∷ ("axis_point_mm", vector (round_all b.point))
              ∷ (c.0 ++ v.1.1);
          ev =
              check_of F "concave_cylindrical_surface" true
              ∷ check_of F "full_360_degree_coverage" true
              ∷ check_of F "two_axial_ends_found" (length terminal == 2)
              ∷ (c.1 ++ v.1.0 ∷ []);
          kind = v.0;
        })

    abbrev pub is_same_bore : Found → Found → Bool
    is_same_bore a b =
        is_through b.kind
        && F.eq b.diameter a.diameter
        && parallel F ctx a.axis b.axis
        && F.lt (F.norm (F.minus a.axis_point b.axis_point)) (F.lit "1e-2")

    -- The faces and the numbers of the later features that are the same bore.
    unfoldable pub same_bores : Found → ℕ → List Found → List (FaceRecord F) × List ℕ
    same_bores a j [] = ([], [])
    same_bores a j (b ∷ bs) =
        let (faces, js) = same_bores a (suc j) bs in
        if is_same_bore a b then (b.faces ++ faces, j ∷ js) else (faces, js)

    abbrev pub hole_of : Found → List (FaceRecord F) → FeatureRecord F
    hole_of a [] = feature_of F a.kind (sorted_set (ids_of F a.faces)) a.params a.ev
    hole_of a (f ∷ more) =
        feature_of F a.kind (sorted_set (ids_of F (a.faces ++ f ∷ more))) a.params
          (a.ev ++ check_of F "collinear_segments_merged" true ∷ [])

    unfoldable pub merge_from : ℕ → List ℕ → List Found → List (FeatureRecord F)
    unfolding same_bores
    merge_from i merged [] = []
    merge_from i merged (a ∷ feats) =
        let same_ : List (FaceRecord F) × List ℕ =
          if is_through a.kind then same_bores a (suc i) feats else ([], []) in
        if any (λ j. i == j) merged
        then merge_from (suc i) merged feats
        else (hole_of a same_.0 ∷ merge_from (suc i) (same_.1 ++ merged) feats)

    unfoldable pub features_of : List (Bore F) → Option (List (FeatureRecord F))
    unfolding found_of merge_from
    features_of info = links_from F info zero info >>= λ links. linked F links >>= λ parent.
        stacks_from F links parent (range_from zero (length info)) [] >>= λ stacks.
        each
          (λ (s : ℕ × List ℕ).
            members_of F info s.1 >>= λ ms. found_of (stack_of F links parent) ms)
          stacks
        >>= λ feats. some (merge_from zero [] feats)
