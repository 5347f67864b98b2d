-- ===== src/Semantics/Rules/Pockets.antt =====
-- `_recognize_pockets` of cad2ml/semantics/recognizer.py.
pub mod Ring
use cad2ml.Prelude.{
  ℕ, suc, ◌+◌, Bool, true, false, not, ◌&&◌, ◌||◌, List, [], ◌∷◌, ◌++◌, Option, none, some, String,
  str_eq, if◌then◌else◌, map, keep, length, leb, any, all, contains, ltb,
}
use mathlib.Core.List.{reverse}
use cad2ml.Prelude.Options.{◌>>=◌, each, each_true, some_true, and_then}
use cad2ml.Prelude.Texts.{sorted_set, add_text}
use cad2ml.Semantics.Records.{
  Floats, FaceRecord, EdgeRecord, Evidence, FeatureRecord, FeatureType, pocket, plane, cylinder,
  Value, number, text, vector, get_key, default, Surface,
}
use cad2ml.Semantics.Context.{
  Ctx, is_claimed, is_cylinder, is_plane, edge, face, is_concave, is_convex, is_outside,
  material_side, scalar, direction, all_smooth, parallel, perpendicular, normal_or_zero,
}
use cad2ml.Semantics.Walks.{Walked, walk, adjacent, to_option}
use cad2ml.Semantics.Rules.{check_of, feature_of, unit_normal, rounded}

module _ (F : Floats) where
  -- `sorted(set(xs))` on numbers: equal ones are merged.
  abbrev pub insert_number : F.R → List F.R → List F.R
  insert_number x [] = x ∷ []
  insert_number x (y ∷ ys) =
      if F.eq x y then y ∷ ys else if F.lt x y then x ∷ y ∷ ys else y ∷ insert_number x ys

  abbrev pub sorted_numbers : List F.R → List F.R
  sorted_numbers [] = []
  sorted_numbers (x ∷ xs) = insert_number x (sorted_numbers xs)

  -- The largest of a list that is not empty.
  abbrev pub greatest_from : F.R → List F.R → F.R
  greatest_from m [] = m
  greatest_from m (x ∷ xs) = greatest_from (F.max m x) xs

  abbrev pub largest : List F.R → Option F.R
  largest [] = none
  largest (x ∷ xs) = some (greatest_from x xs)

  module _ (ctx : Ctx F) where
    abbrev pub wall_ids : String → List (EdgeRecord F) → List String
    wall_ids floor_id [] = []
    wall_ids floor_id (e ∷ es) =
        keep (λ a. not (str_eq a floor_id)) e.adjacent_face_ids ++ wall_ids floor_id es

    -- The test of the ring's loop at a neighbour that is not yet in it.
    unfoldable pub joins_ring : String → String → String → Option Bool
    joins_ring floor_id w n =
        if str_eq n floor_id || is_claimed F ctx.claimed n
        then some false
        else (all_smooth F ctx w n >>= λ b.
            and_then b
              (face F ctx n >>= λ g. some (is_plane g.surface_type || is_cylinder g.surface_type)))

    -- The walls and the tangent faces reached from them; the loop ends within this fuel.
    unfoldable pub ring_walk : String → List String → Walked (List String × List String)
    unfolding joins_ring walk
    ring_walk floor_id walls =
        walk (adjacent F ctx) (joins_ring floor_id) (suc (length ctx.faces + length walls)) walls
          (reverse walls) []

    unfoldable pub ring_of : String → List String → Option (List String)
    unfolding ring_walk
    ring_of floor_id walls = to_option (ring_walk floor_id walls) >>= λ r. some r.0

    abbrev pub wall_fits : List F.R → String → Option Bool
    wall_fits nf w = face F ctx w >>= λ f. elim f.surface_type [
      | plane ↦ some (perpendicular F ctx (normal_or_zero F f) nf)
      | cylinder ↦
          direction F "axis" f >>= λ a. some (parallel F ctx a nf && is_outside (material_side F f))
      | _ ↦ some false
    ]

    -- `any(e.convexity == "convex" for e in ... if fl.face_id not in e.adjacent_face_ids)`
    abbrev pub has_convex_rim : String → String → Option Bool
    has_convex_rim floor_id w = face F ctx w >>= λ f.
        some_true
          (λ k. edge F ctx k >>= λ e.
            some (not (contains e.adjacent_face_ids floor_id) && is_convex e.convexity))
          f.boundary_edge_ids

    abbrev pub depth_along : List F.R → String → Option F.R
    depth_along nf w = face F ctx w >>= λ f.
        some (F.dot (F.abs_vector (F.minus f.bbox_max_mm f.bbox_min_mm)) (F.abs_vector nf))

    abbrev pub corner_radii : List String → Option (List F.R)
    corner_radii [] = some []
    corner_radii (w ∷ ring) = face F ctx w >>= λ f. corner_radii ring >>= λ rest.
        if is_cylinder f.surface_type
        then (scalar F "radius" f >>= λ r. some (r ∷ rest))
        else some rest

    -- The feature of a floor whose ring fits.
    unfoldable pub pocket_of :
        FaceRecord F → List F.R → List String → Bool → Option (FeatureRecord F)
    pocket_of fl nf ring rim_convex = each (depth_along nf) ring >>= λ depths.
        largest depths >>= λ depth. corner_radii ring >>= λ radii.
        let ev : List (Evidence F) =
          check_of F "planar_floor_outer_loop_all_concave" true
          ∷ check_of F "walls_perpendicular_or_axis_parallel_to_floor_normal" true
          ∷ check_of F "walls_open_with_convex_rim" rim_convex
          ∷ [] in
        some (
          feature_of F pocket (sorted_set (fl.face_id ∷ ring))
            (("depth_mm", number (F.round depth 6))
              ∷ ("floor_face", text fl.face_id)
              ∷ ("floor_normal", rounded F nf)
              ∷ ("corner_radii_mm", vector (sorted_numbers radii))
              ∷ ("floor_area_mm2", number fl.area_mm2)
              ∷ [])
            ev)

    -- One floor of the loop: `none` inside means `continue`.
    unfoldable pub pocket_at : FaceRecord F → Option (Option (FeatureRecord F))
    unfolding ring_of pocket_of
    pocket_at fl =
        if not (is_plane fl.surface_type) || is_claimed F ctx.claimed fl.face_id
        then some none
        else (each (edge F ctx) fl.outer_loop_edge_ids >>= λ outer.
            if ltb (length outer) 3
              || not (all (λ (e : EdgeRecord F). is_concave e.convexity) outer)
            then some none
            else (let walls : List String = sorted_set (wall_ids fl.face_id outer) in
                if any (is_claimed F ctx.claimed) walls
                then some none
                else (ring_of fl.face_id walls >>= λ ring.
                    let nf : List F.R = unit_normal F fl in
                    each_true (wall_fits nf) ring >>= λ wall_ok.
                    each_true (has_convex_rim fl.face_id) ring >>= λ rim_convex.
                    if wall_ok
                    then (pocket_of fl nf ring rim_convex >>= λ feat. some (some feat))
                    else some none)))

    unfoldable pub pockets_of : List (FaceRecord F) → Option (List (FeatureRecord F))
    unfolding pocket_at
    pockets_of [] = some []
    pockets_of (fl ∷ fs) = pocket_at fl >>= λ r.
        pockets_of fs >>= λ rest. some (elim r [ none ↦ rest | some feat ↦ feat ∷ rest ])

    unfoldable pub recognize_pockets : Option (List (FeatureRecord F))
    unfolding pockets_of
    recognize_pockets = pockets_of ctx.faces
