-- ===== src/Semantics/Records.antt =====
-- The records of cad2ml/schemas/manifest.py and cad2ml/config.py with the fields that the recognizer of
-- cad2ml/semantics/recognizer.py reads or computes; `analytic_params` is split into numbers and vectors, `uv_bounds` into its
-- four entries, and `curvature` is its mean. Floating-point numbers and numpy are not part of the repository: `Floats`
-- is what the rules use of them. The texts of evidence details, the fixed texts of a feature and the fields that nothing
-- here reads are left out.
use cad2ml.Prelude.{ℕ, Bool, List, [], ◌∷◌, Option, none, some, String, str_eq, if◌then◌else◌}

pub record Floats : Type 1 where
  pub R : Type 0
  -- The number that a literal of the source denotes.
  pub lit : String → R
  pub of_nat : ℕ → R
  pub pi : R
  pub nan : R
  pub add : R → R → R
  pub sub : R → R → R
  pub mul : R → R → R
  pub div : R → R → R
  pub abs : R → R
  pub max : R → R → R
  pub min : R → R → R
  pub sin : R → R
  pub cos : R → R
  pub radians : R → R
  pub degrees : R → R
  pub lt : R → R → Bool
  pub le : R → R → Bool
  pub eq : R → R → Bool
  pub round : R → ℕ → R
  -- `round(x / 0.01)`, an integer; the sign is kept beside the size.
  pub round_centi : R → Bool × ℕ
  pub of_centi : Bool × ℕ → R
  -- numpy's vectors.
  pub dot : List R → List R → R
  pub norm : List R → R
  pub minus : List R → List R → List R
  pub scale : R → List R → List R
  pub largest_abs : List R → R
  pub abs_vector : List R → List R
  pub least : List (List R) → List R
  pub greatest : List (List R) → List R

pub data Surface : Type 0 where
  plane cylinder cone sphere torus : Surface
  other_surface : String → Surface

pub data Convexity : Type 0 where
  convex concave smooth boundary seam non_manifold unknown_convexity : Convexity

pub data Side : Type 0 where
  inside outside not_applicable : Side

-- The literal of `feature_type`, in the order of `prefix`.
pub data FeatureType : Type 0 where
  through_hole blind_hole cylindrical_hole_wall slot pocket fillet planar_face unknown : FeatureType

-- `d[key]` and `d.get(key)` of a dictionary as an association list.
abbrev pub get_key {ℓ} : {A : Type ℓ} → String → List (String × A) → Option A
get_key k [] = none
get_key k ((j, a) ∷ rest) = if str_eq j k then some a else get_key k rest

abbrev pub default {ℓ} : {A : Type ℓ} → A → Option A → A
default d none = d
default d (some a) = a

module _ (F : Floats) where
  pub record FaceRecord : Type 0 where
    pub face_id : String
    pub surface_type : Surface
    pub area_mm2 : F.R
    pub centroid_mm : List F.R
    pub normal_at_centroid : Option (List F.R)
    pub bbox_min_mm : List F.R
    pub bbox_max_mm : List F.R
    -- u from, u to, v from, v to
    pub u_from : F.R
    pub u_to : F.R
    pub v_from : F.R
    pub v_to : F.R
    pub numbers : List (String × F.R)
    pub vectors : List (String × List F.R)
    pub mean_curvature : Option F.R
    pub adjacent_face_ids : List String
    pub boundary_edge_ids : List String
    pub outer_loop_edge_ids : List String

  pub record EdgeRecord : Type 0 where
    pub edge_id : String
    pub start_mm : List F.R
    pub adjacent_face_ids : List String
    pub convexity : Convexity

  pub record RecognizerConfig : Type 0 where
    pub angle_tol_deg : F.R
    pub distance_tol_mm : F.R

  pub data Value : Type 0 where
    number : F.R → Value
    vector : List F.R → Value
    text : String → Value
    flag : Bool → Value

  abbrev pub Params : Type 0
  Params = List (String × Value)

  pub record Observation : Type 0 where
    pub face_id : String
    pub surface_type : Surface
    pub material_side : Side
    pub measurements : Params

  pub record Evidence : Type 0 where
    pub check : String
    pub passed : Bool

  -- The record without `inference_method`, which is RECOGNIZER_VERSION throughout.
  pub record FeatureRecord : Type 0 where
    pub feature_id : String
    pub feature_type : FeatureType
    pub participating_faces : List String
    pub parameters : Params
    pub confidence : F.R
    pub evidence : List Evidence
