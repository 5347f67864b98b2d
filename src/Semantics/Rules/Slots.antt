-- ===== src/Semantics/Rules/Slots.antt =====
-- `_recognize_slots` of cad2ml/semantics/recognizer.py: the stadium slots, then the open rectangular ones in Open.
pub mod Open
use cad2ml.Prelude.{
  ℕ, Bool, true, false, not, ◌&&◌, ◌||◌, List, [], ◌∷◌, ◌++◌, Option, none, some, String, str_eq,
  if◌then◌else◌, map, keep, length, any, all, contains,
}
use cad2ml.Prelude.Options.{◌>>=◌, each, each_kept, each_true, and_then}
use cad2ml.Prelude.Texts.{sorted_set, set_of, common}
use cad2ml.Semantics.Records.{
  Floats, FaceRecord, EdgeRecord, Evidence, FeatureRecord, slot, Value, number, text, Params,
}
use cad2ml.Semantics.Context.{
  Ctx, is_claimed, is_cylinder, is_plane, face, is_outside, material_side, scalar, direction,
  all_smooth, all_concave, parallel, angular_span, cos_tol, unit,
}
use cad2ml.Semantics.Rules.{check_of, feature_of, unit_normal, rounded, twice, ids_of}
use cad2ml.Semantics.Rules.Slots.Open.{open_slots}

module _ (F : Floats) (ctx : Ctx F) where
  -- The faces not yet claimed, and the concave half cylinders among them.
  abbrev pub free_faces : List (FaceRecord F)
  free_faces = keep (λ (f : FaceRecord F). not (is_claimed F ctx.claimed f.face_id)) ctx.faces

  abbrev pub is_half : FaceRecord F → Bool
  is_half f =
      is_cylinder f.surface_type
      && is_outside (material_side F f)
      && F.lt (F.abs (F.sub (angular_span F f) F.pi)) (F.radians ctx.cfg.angle_tol_deg)

  abbrev pub stadium_wall : FaceRecord F → String → Option Bool
  stadium_wall a w = face F ctx w >>= λ f.
      and_then (is_plane f.surface_type && not (is_claimed F ctx.claimed w))
        (all_smooth F ctx w a.face_id)

  abbrev pub stadium_floor : FaceRecord F → FaceRecord F → List String → FaceRecord F → Option Bool
  stadium_floor a b ids f =
      and_then
        (not (contains ids f.face_id)
          && is_plane f.surface_type
          && (contains f.adjacent_face_ids a.face_id && contains f.adjacent_face_ids b.face_id))
        (all_concave F ctx f.face_id a.face_id)

  -- `abs(ra - rb) > 1e-3 or not ctx.parallel(...)`, negated.
  unfoldable pub halves_match : FaceRecord F → FaceRecord F → F.R → F.R → Option Bool
  halves_match a b ra rb =
      if F.lt (F.lit "1e-3") (F.abs (F.sub ra rb))
      then some false
      else (direction F "axis" a >>= λ u. direction F "axis" b >>= λ v. some (parallel F ctx u v))

  unfoldable pub stadium_evidence : F.R → FaceRecord F → FaceRecord F → List (Evidence F)
  stadium_evidence ra w0 w1 =
      let n1 : List F.R = unit_normal F w0 in
      let gap : F.R = F.abs (F.dot (F.minus w0.centroid_mm w1.centroid_mm) n1) in
      check_of F "two_concave_half_cylinders_equal_radius" true
      ∷ check_of F "two_planar_walls_tangent_to_both_ends" true
      ∷ check_of F "walls_parallel_and_facing"
          (F.lt (F.dot n1 (unit_normal F w1)) (F.mul (F.lit "-1") (cos_tol F ctx)))
      ∷ check_of F "wall_gap_equals_diameter" (F.lt (F.abs (F.sub gap (twice F ra))) (F.lit "1e-2"))
      ∷ []

  unfoldable pub stadium_params : FaceRecord F → FaceRecord F → F.R → Bool → Option (Params F)
  stadium_params a b ra has_floor = direction F "axis_origin" a >>= λ ca.
      direction F "axis_origin" b >>= λ cb. direction F "axis" a >>= λ u.
      let ax : List F.R = unit F u in
      let e : List F.R = F.minus cb ca in
      let d : List F.R = F.minus e (F.scale (F.dot e ax) ax) in
      some (
        ("width_mm", number (F.round (twice F ra) 6))
        ∷ ("length_mm", number (F.round (F.add (F.norm d) (twice F ra)) 6))
        ∷ ("profile", text "stadium")
        ∷ ("through", text (if has_floor then "no" else "yes"))
        ∷ ("depth_direction", rounded F ax)
        ∷ [])

  abbrev pub is_some_face : List (FaceRecord F) → Bool
  is_some_face [] = false
  is_some_face (f ∷ fs) = true

  -- The slot of two halves and their two walls.
  unfoldable pub stadium_of :
      FaceRecord F
      → FaceRecord F
      → F.R
      → FaceRecord F
      → FaceRecord F
      → Option (List String × FeatureRecord F)
  unfolding stadium_evidence stadium_params
  stadium_of a b ra w0 w1 =
      let ids : List String = set_of (a.face_id ∷ b.face_id ∷ w0.face_id ∷ w1.face_id ∷ []) in
      each_kept (stadium_floor a b ids) free_faces >>= λ floor_.
      stadium_params a b ra (is_some_face floor_) >>= λ params.
      let all_ids : List String = set_of (ids ++ ids_of F floor_) in
      some (all_ids, feature_of F slot (sorted_set all_ids) params (stadium_evidence ra w0 w1))

  -- Two halves in the inner loop; `some none` is `continue`.
  unfoldable pub stadium_at :
      FaceRecord F → FaceRecord F → List String → Option (Option (List String × FeatureRecord F))
  unfolding halves_match stadium_of
  stadium_at a b used =
      if contains used a.face_id || contains used b.face_id
      then some none
      else (scalar F "radius" a >>= λ ra. scalar F "radius" b >>= λ rb.
          halves_match a b ra rb >>= λ same_.
          if not same_
          then some none
          else (each_kept (stadium_wall a)
                (common (set_of a.adjacent_face_ids) (set_of b.adjacent_face_ids))
              >>= λ ids. each (face F ctx) ids >>= λ walls. elim walls [
                | w0 ∷ (w1 ∷ []) ↦ stadium_of a b ra w0 w1 >>= λ r. some (some r)
                | _ ↦ some none
              ]))

  unfoldable pub stadiums_with :
      FaceRecord F
      → List (FaceRecord F)
      → List String
      → Option (List String × List (FeatureRecord F))
  unfolding stadium_at
  stadiums_with a [] used = some (used, [])
  stadiums_with a (b ∷ bs) used = stadium_at a b used >>= λ r. elim r [
    | none ↦ stadiums_with a bs used
    | some (ids, feat) ↦ stadiums_with a bs (ids ++ used) >>= λ rest. some (rest.0, feat ∷ rest.1)
  ]

  unfoldable pub stadiums :
      List (FaceRecord F) → List String → Option (List String × List (FeatureRecord F))
  unfolding stadiums_with
  stadiums [] used = some (used, [])
  stadiums (a ∷ halves) used = stadiums_with a halves used >>= λ r.
      stadiums halves r.0 >>= λ rest. some (rest.0, r.1 ++ rest.1)

  unfoldable pub recognize_slots : Option (List (FeatureRecord F))
  unfolding stadiums
  recognize_slots = stadiums (keep is_half free_faces) [] >>= λ r.
      open_slots F ctx free_faces r.0 >>= λ rest. some (r.1 ++ rest)
