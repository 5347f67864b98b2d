-- ===== src/Semantics/Context.antt =====
-- `_Ctx`, `angular_span`, `material_side`, `observe` and the axis of a cylinder in
-- cad2ml/semantics/recognizer.py. A missing id or key is a KeyError, `none`.
use cad2ml.Prelude.{
  Bool, true, false, not, ◌||◌, List, [], ◌∷◌, Option, none, some, String, str_eq, if◌then◌else◌,
  contains, keep, any, count_where, length, ◌&&◌, leb, map,
}
use cad2ml.Prelude.Options.{◌>>=◌, each, each_true}
use cad2ml.Semantics.Records.{
  Floats, Surface, plane, cylinder, cone, sphere, torus, other_surface, Convexity, convex, concave,
  smooth, seam, Side, inside, outside, not_applicable, FeatureType, FaceRecord, EdgeRecord,
  RecognizerConfig, number, vector, flag, Params, Observation, Evidence, get_key, default,
}

abbrev pub is_plane : Surface → Bool
is_plane plane = true
is_plane _ = false

abbrev pub is_cylinder : Surface → Bool
is_cylinder cylinder = true
is_cylinder _ = false

abbrev pub is_torus : Surface → Bool
is_torus torus = true
is_torus _ = false

abbrev pub is_cone : Surface → Bool
is_cone cone = true
is_cone _ = false

abbrev pub is_curved : Surface → Bool
is_curved cylinder = true
is_curved cone = true
is_curved sphere = true
is_curved torus = true
is_curved _ = false

abbrev pub is_smooth : Convexity → Bool
is_smooth smooth = true
is_smooth _ = false

abbrev pub is_concave : Convexity → Bool
is_concave concave = true
is_concave _ = false

abbrev pub is_convex : Convexity → Bool
is_convex convex = true
is_convex _ = false

abbrev pub is_seam : Convexity → Bool
is_seam seam = true
is_seam _ = false

abbrev pub is_outside : Side → Bool
is_outside outside = true
is_outside _ = false

module _ (F : Floats) where
  pub record Ctx : Type 0 where
    pub faces : List (FaceRecord F)
    pub edges : List (EdgeRecord F)
    pub cfg : RecognizerConfig F
    pub claimed : List (String × FeatureType)

  -- Of the records with one id, a dictionary keeps the last.
  abbrev pub find_face : List (FaceRecord F) → String → Option (FaceRecord F)
  find_face [] k = none
  find_face (f ∷ fs) k = elim (find_face fs k) [
    | some g ↦ some g
    | none ↦ if str_eq f.face_id k then some f else none
  ]

  abbrev pub find_edge : List (EdgeRecord F) → String → Option (EdgeRecord F)
  find_edge [] k = none
  find_edge (e ∷ es) k = elim (find_edge es k) [
    | some g ↦ some g
    | none ↦ if str_eq e.edge_id k then some e else none
  ]

  abbrev pub is_claimed : List (String × FeatureType) → String → Bool
  is_claimed claimed k = any (λ (p : String × FeatureType). str_eq p.0 k) claimed

  -- `_u`
  unfoldable pub unit : List F.R → List F.R
  unit v = if F.lt (F.lit "0") (F.norm v) then map (λ x. F.div x (F.norm v)) v else v

  unfoldable pub confidence_of : List (Evidence F) → F.R
  confidence_of ev =
      F.round
        (F.div (F.mul (F.lit "0.95") (F.of_nat (count_where (λ (e : Evidence F). e.passed) ev)))
          (F.max (F.of_nat (length ev)) (F.lit "1")))
        4

  unfoldable pub angular_span : FaceRecord F → F.R
  angular_span f =
      if is_cylinder f.surface_type
      then F.sub f.u_to f.u_from
      else if is_torus f.surface_type
      then F.sub f.v_to f.v_from
      else F.lit "0"

  unfoldable pub material_side : FaceRecord F → Side
  material_side f =
      if is_curved f.surface_type
      then (elim f.mean_curvature [
        | none ↦ not_applicable
        | some h ↦ if F.lt h (F.lit "0") then outside else inside
      ])
      else not_applicable

  -- `f.normal_at_centroid or [0, 0, 0]`
  unfoldable pub normal_or_zero : FaceRecord F → List F.R
  normal_or_zero f =
      let zero_ : List F.R = F.lit "0" ∷ F.lit "0" ∷ F.lit "0" ∷ [] in
      elim f.normal_at_centroid [ none ↦ zero_ | some [] ↦ zero_ | some (x ∷ v) ↦ x ∷ v ]

  unfoldable pub scalar : String → FaceRecord F → Option F.R
  scalar key f = get_key key f.numbers

  unfoldable pub direction : String → FaceRecord F → Option (List F.R)
  direction key f = get_key key f.vectors

  -- `ap.get("radius", ap.get("minor_radius", d))`
  unfoldable pub radius_or : F.R → FaceRecord F → F.R
  radius_or d f =
      default (default d (get_key "minor_radius" f.numbers)) (get_key "radius" f.numbers)

  -- The branches of `observe`.
  unfoldable pub measurements : FaceRecord F → Option (Params F)
  unfolding scalar direction angular_span
  measurements f = elim f.surface_type [
    | cylinder ↦ scalar "radius" f >>= λ r. direction "axis" f >>= λ ax.
        direction "axis_origin" f >>= λ o. some (
          ("area_mm2", number f.area_mm2)
          ∷ ("radius_mm", number r)
          ∷ ("axis", vector ax)
          ∷ ("axis_origin_mm", vector o)
          ∷ ("angular_span_deg", number (F.round (F.degrees (angular_span f)) 4))
          ∷ ("concave", flag (is_outside (material_side f)))
          ∷ [])
    | torus ↦ scalar "major_radius" f >>= λ a. scalar "minor_radius" f >>= λ b. some (
        ("area_mm2", number f.area_mm2)
        ∷ ("major_radius_mm", number a)
        ∷ ("minor_radius_mm", number b)
        ∷ ("minor_span_deg", number (F.round (F.degrees (angular_span f)) 4))
        ∷ ("concave", flag (is_outside (material_side f)))
        ∷ [])
    | plane ↦
        let zero_ : List F.R = F.lit "0.0" ∷ F.lit "0.0" ∷ F.lit "0.0" ∷ [] in
        let axis : List F.R = default zero_ (get_key "axis" f.vectors) in
        some (
          ("area_mm2", number f.area_mm2)
          ∷ (
            "normal",
            vector
                (elim f.normal_at_centroid [ none ↦ axis | some [] ↦ axis | some (x ∷ v) ↦ x ∷ v ]),
          )
          ∷ [])
    | cone ↦ some (("area_mm2", number f.area_mm2) ∷ [])
    | sphere ↦ some (("area_mm2", number f.area_mm2) ∷ [])
    | other_surface s ↦ some (("area_mm2", number f.area_mm2) ∷ [])
  ]

  unfoldable pub observe : List (FaceRecord F) → Option (List (Observation F))
  unfolding measurements
  observe faces =
      each
        (λ (f : FaceRecord F). measurements f >>= λ m. some (record {
          face_id = f.face_id;
          surface_type = f.surface_type;
          material_side = material_side f;
          measurements = m;
        }))
        faces

  -- `_axis_key`: the axis, its point closest to the origin, and the radius.
  pub record Axis : Type 0 where
    pub along : List F.R
    pub point : List F.R
    pub radius : F.R

  unfoldable pub axis_of : FaceRecord F → Option Axis
  unfolding unit scalar direction
  axis_of f = direction "axis" f >>= λ a. direction "axis_origin" f >>= λ o.
      scalar "radius" f >>= λ r.
      let u : List F.R = unit a in
      let ax : List F.R =
        if F.lt (F.largest_abs u) (F.lit "0") then F.scale (F.lit "-1") u else u in
      some (record { along = ax; point = F.minus o (F.scale (F.dot o ax) ax); radius = r })

  module _ (ctx : Ctx) where
    abbrev pub face : String → Option (FaceRecord F)
    face k = find_face ctx.faces k

    abbrev pub edge : String → Option (EdgeRecord F)
    edge k = find_edge ctx.edges k

    unfoldable pub cos_tol : F.R
    cos_tol = F.cos (F.radians ctx.cfg.angle_tol_deg)

    unfoldable pub parallel : List F.R → List F.R → Bool
    parallel a b = F.le cos_tol (F.abs (F.dot (unit a) (unit b)))

    unfoldable pub perpendicular : List F.R → List F.R → Bool
    perpendicular a b =
        F.le (F.abs (F.dot (unit a) (unit b))) (F.sin (F.radians ctx.cfg.angle_tol_deg))

    unfoldable pub edges_between : String → String → Option (List (EdgeRecord F))
    edges_between a b = face a >>= λ fa. each edge fa.boundary_edge_ids >>= λ es.
        some (keep (λ (e : EdgeRecord F). contains e.adjacent_face_ids b) es)

    -- All edges between two faces are smooth.
    abbrev pub all_smooth : String → String → Option Bool
    all_smooth a b = edges_between a b >>= λ es.
        each_true (λ (e : EdgeRecord F). some (is_smooth e.convexity)) es

    abbrev pub all_concave : String → String → Option Bool
    all_concave a b = edges_between a b >>= λ es.
        each_true (λ (e : EdgeRecord F). some (is_concave e.convexity)) es

    -- `_is_blend`
    unfoldable pub is_blend : FaceRecord F → Option Bool
    unfolding angular_span
    is_blend f =
        if not (is_cylinder f.surface_type || is_torus f.surface_type)
        then some false
        else if not
            (F.lt (F.lit "0") (angular_span f) && F.le (angular_span f) (F.mul (F.lit "0.6") F.pi))
        then some false
        else (each edge f.boundary_edge_ids >>= λ es.
            some (leb 2 (count_where (λ (e : EdgeRecord F). is_smooth e.convexity) es)))
