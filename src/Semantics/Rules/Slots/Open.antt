-- ===== src/Semantics/Rules/Slots/Open.antt =====
-- The second part of `_recognize_slots` of cad2ml/semantics/recognizer.py: open rectangular slots.
use cad2ml.Prelude.{
  Bool, true, false, not, ◌&&◌, ◌||◌, List, [], ◌∷◌, ◌++◌, Option, none, some, String, str_eq,
  if◌then◌else◌, keep, all, contains,
}
use Prim.Native.String.{◌++◌ as join_text}
use cad2ml.Prelude.Options.{◌>>=◌, each}
use cad2ml.Prelude.Texts.{sorted, set_of, add_text}
use cad2ml.Semantics.Records.{
  Floats, FaceRecord, EdgeRecord, Evidence, FeatureRecord, slot, number, text,
}
use cad2ml.Semantics.Context.{
  Ctx, is_claimed, is_plane, face, edge, is_outside, material_side, is_concave, is_convex,
  is_smooth, is_blend, edges_between, perpendicular, normal_or_zero, cos_tol,
}
use cad2ml.Semantics.Rules.{check_of, feature_of, unit_normal, rounded}

-- `",".join(xs)`
abbrev pub join_commas : List String → String
join_commas [] = ""
join_commas (x ∷ []) = x
join_commas (x ∷ y ∷ ys) = join_text x (join_text "," (join_commas (y ∷ ys)))

-- A key of a dictionary keeps the place of its first entry.
abbrev pub add_last : String → List String → List String
add_last x xs = if contains xs x then xs else xs ++ x ∷ []

module _ (F : Floats) where
  -- Edges of the wanted kind, and at least one.
  abbrev pub some_and_all : (EdgeRecord F → Bool) → List (EdgeRecord F) → Bool
  some_and_all p [] = false
  some_and_all p (e ∷ es) = p e && all p es

  module _ (ctx : Ctx F) where
    -- A wall behind the blend `nb`.
    abbrev pub is_wall_behind : FaceRecord F → String → List F.R → String → Option Bool
    is_wall_behind fl nb nf w_id = face F ctx w_id >>= λ w.
        edges_between F ctx nb w_id >>= λ tangent. some (
          not (str_eq w_id fl.face_id)
          && is_plane w.surface_type
          && some_and_all (λ (e : EdgeRecord F). is_smooth e.convexity) tangent
          && perpendicular F ctx (normal_or_zero F w) nf)

    unfoldable pub walls_behind :
        FaceRecord F
        → String
        → List F.R
        → List String
        → List String × List String
        → Option (List String × List String)
    walls_behind fl nb nf [] found = some found
    walls_behind fl nb nf (w ∷ ws) (walls, via) = is_wall_behind fl nb nf w >>= λ b.
        walls_behind fl nb nf ws (if b then (add_last w walls, add_text nb via) else (walls, via))

    -- One neighbour of the floor.
    unfoldable pub walls_at :
        FaceRecord F
        → List F.R
        → String
        → List String × List String
        → Option (List String × List String)
    unfolding walls_behind
    walls_at fl nf nb_id (walls, via) = face F ctx nb_id >>= λ nb.
        edges_between F ctx fl.face_id nb_id >>= λ es.
        if is_plane nb.surface_type
          && some_and_all (λ (e : EdgeRecord F). is_concave e.convexity) es
          && perpendicular F ctx (normal_or_zero F nb) nf
        then some (add_last nb_id walls, via)
        else (is_blend F ctx nb >>= λ blend.
            if blend
              && is_outside (material_side F nb)
              && all (λ (e : EdgeRecord F). is_smooth e.convexity) es
            then walls_behind fl nb_id nf nb.adjacent_face_ids (walls, via)
            else some (walls, via))

    unfoldable pub walls_around :
        FaceRecord F
        → List F.R
        → List String
        → List String × List String
        → Option (List String × List String)
    unfolding walls_at
    walls_around fl nf [] found = some found
    walls_around fl nf (n ∷ ns) found =
        walls_at fl nf n found >>= λ next. walls_around fl nf ns next

    abbrev pub is_facing : FaceRecord F → FaceRecord F → Bool
    is_facing w0 w1 =
        let n1 : List F.R = unit_normal F w0 in
        F.lt (F.dot n1 (unit_normal F w1)) (F.mul (F.lit "-1") (cos_tol F ctx))
        && F.lt (F.lit "0") (F.dot (F.minus w1.centroid_mm w0.centroid_mm) n1)

    abbrev pub is_apart : List String → EdgeRecord F → Bool
    is_apart connected e = all (λ a. not (contains connected a)) e.adjacent_face_ids

    -- The slot of a floor and its two walls, if the floor is open at both ends.
    unfoldable pub open_slot_of :
        FaceRecord F
        → FaceRecord F
        → FaceRecord F
        → List String
        → Option (Option (List String × FeatureRecord F))
    open_slot_of fl w0 w1 via = each (edge F ctx) fl.outer_loop_edge_ids >>= λ outer.
        let rest : List (EdgeRecord F) = keep (is_apart (w0.face_id ∷ w1.face_id ∷ via)) outer in
        let open_ends : Bool = some_and_all (λ (e : EdgeRecord F). is_convex e.convexity) rest in
        let gap : F.R = F.abs (F.dot (F.minus w0.centroid_mm w1.centroid_mm) (unit_normal F w0)) in
        let ids : List String = set_of (fl.face_id ∷ w0.face_id ∷ w1.face_id ∷ []) in
        let ev : List (Evidence F) =
          check_of F "planar_floor_with_two_perpendicular_walls" true
          ∷ check_of F "walls_parallel_and_facing_each_other" true
          ∷ check_of F "floor_open_at_both_ends" open_ends
          ∷ [] in
        some (
          if open_ends
          then some (
            ids,
            feature_of F slot (sorted ids)
                (("width_mm", number (F.round gap 6))
                  ∷ ("profile", text "rectangular_open")
                  ∷ ("through", text "open")
                  ∷ ("floor_normal", rounded F (unit_normal F fl))
                  ∷ ("blend_faces", text (join_commas (sorted via)))
                  ∷ [])
                ev,
          )
          else none)

    unfoldable pub open_slot_at :
        FaceRecord F → List String → Option (Option (List String × FeatureRecord F))
    unfolding walls_around open_slot_of
    open_slot_at fl used =
        if not (is_plane fl.surface_type)
          || contains used fl.face_id
          || is_claimed F ctx.claimed fl.face_id
        then some none
        else (walls_around fl (unit_normal F fl) fl.adjacent_face_ids ([], []) >>= λ found.
            each (face F ctx) found.0 >>= λ walls. elim walls [
              | w0 ∷ (w1 ∷ []) ↦
                  if is_facing w0 w1 then open_slot_of fl w0 w1 found.1 else some none
              | _ ↦ some none
            ])

    unfoldable pub open_slots : List (FaceRecord F) → List String → Option (List (FeatureRecord F))
    unfolding open_slot_at
    open_slots [] used = some []
    open_slots (fl ∷ fs) used = open_slot_at fl used >>= λ r. elim r [
      | none ↦ open_slots fs used
      | some (ids, feat) ↦ open_slots fs (ids ++ used) >>= λ rest. some (feat ∷ rest)
    ]
