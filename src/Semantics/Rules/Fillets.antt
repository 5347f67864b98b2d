-- ===== src/Semantics/Rules/Fillets.antt =====
-- `_recognize_fillets` of cad2ml/semantics/recognizer.py. The numpy minimum of no boxes is an error, `none`.
use cad2ml.Prelude.{
  Bool, true, not, ◌&&◌, ◌||◌, List, [], ◌∷◌, ◌++◌, Option, none, some, String, str_eq,
  if◌then◌else◌, map, keep, length, leb,
}
use cad2ml.Prelude.Options.{◌>>=◌, each}
use cad2ml.Prelude.Texts.{sorted_set}
use cad2ml.Semantics.Records.{
  Floats, FaceRecord, EdgeRecord, Evidence, FeatureRecord, fillet, number, text, get_key, default,
}
use cad2ml.Semantics.Context.{
  Ctx, is_claimed, is_cylinder, angular_span, is_blend, edge, is_smooth, is_outside, material_side,
  radius_or,
}
use cad2ml.Semantics.Rules.{
  total, one_side, check_of, feature_of, group_coaxial, components_of_groups,
}

module _ (F : Floats) (ctx : Ctx F) where
  -- `np.min` and `np.max` over the boxes of no face raise.
  unfoldable pub part_diagonal : Option F.R
  part_diagonal = elim ctx.faces [
    | [] ↦ none
    | f ∷ fs ↦ some (
        F.norm (
          F.minus (F.greatest (map (λ (g : FaceRecord F). g.bbox_max_mm) (f ∷ fs)))
            (F.least (map (λ (g : FaceRecord F). g.bbox_min_mm) (f ∷ fs)))))
  ]

  abbrev pub is_partial : FaceRecord F → Bool
  is_partial c =
      is_cylinder c.surface_type
      && F.lt (F.lit "0") (angular_span F c)
      && F.lt (angular_span F c) (F.sub (F.mul (F.lit "2") F.pi) (F.lit "1e-6"))
      && not (is_claimed F ctx.claimed c.face_id)

  abbrev pub component_span : List (FaceRecord F) → F.R
  component_span comp = if one_side F comp then total F (map (angular_span F) comp) else F.lit "0.0"

  -- `group_span`: the later entry of an id is in front.
  unfoldable pub spans_of : List (List (FaceRecord F)) → List (String × F.R) → List (String × F.R)
  spans_of [] spans = spans
  spans_of (comp ∷ comps) spans =
      spans_of comps (map (λ (c : FaceRecord F). (c.face_id, component_span comp)) comp ++ spans)

  unfoldable pub group_span : Option (List (String × F.R))
  unfolding spans_of
  group_span = group_coaxial F ctx (keep is_partial ctx.faces) true >>= λ groups.
      components_of_groups F ctx groups >>= λ comps. some (spans_of comps [])

  -- The other faces across the smooth edges of the face.
  unfoldable pub smooth_neighbours : FaceRecord F → List (EdgeRecord F) → List String
  smooth_neighbours f [] = []
  smooth_neighbours f (e ∷ es) =
      (if is_smooth e.convexity
        then keep (λ a. not (str_eq a f.face_id)) e.adjacent_face_ids
        else [])
      ++ smooth_neighbours f es

  unfoldable pub fillet_of : F.R → FaceRecord F → Option (FeatureRecord F)
  unfolding smooth_neighbours
  fillet_of diag f = each (edge F ctx) f.boundary_edge_ids >>= λ es.
      let r : F.R = radius_or F (F.lit "0.0") f in
      let ev : List (Evidence F) =
        check_of F "partial_cylinder_or_torus" true
        ∷ check_of F "tangent_to_two_neighbours"
            (leb 2 (length (sorted_set (smooth_neighbours f es))))
        ∷ check_of F "radius_small_relative_to_part" (F.lt r (F.mul (F.lit "0.1") diag))
        ∷ [] in
      some (
        feature_of F fillet (f.face_id ∷ [])
          (("radius_mm", number (F.round r 6))
            ∷ ("blend", text (if is_outside (material_side F f) then "concave" else "convex"))
            ∷ [])
          ev)

  abbrev pub is_rounded_end : List (String × F.R) → String → Bool
  is_rounded_end spans k = F.lt (F.mul (F.lit "0.6") F.pi) (default (F.lit "0.0") (get_key k spans))

  unfoldable pub fillets_of :
      F.R → List (String × F.R) → List (FaceRecord F) → Option (List (FeatureRecord F))
  unfolding fillet_of
  fillets_of diag spans [] = some []
  fillets_of diag spans (f ∷ fs) =
      if is_claimed F ctx.claimed f.face_id
      then fillets_of diag spans fs
      else (is_blend F ctx f >>= λ blend.
          if not blend || is_rounded_end spans f.face_id
          then fillets_of diag spans fs
          else (fillet_of diag f >>= λ feat.
              fillets_of diag spans fs >>= λ rest. some (feat ∷ rest)))

  unfoldable pub recognize_fillets : Option (List (FeatureRecord F))
  unfolding part_diagonal group_span fillets_of
  recognize_fillets =
      part_diagonal >>= λ diag. group_span >>= λ spans. fillets_of diag spans ctx.faces
