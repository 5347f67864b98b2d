-- ===== src/Semantics/Recognize.antt =====
-- `recognize` and `face_labels_from_features` of cad2ml/semantics/recognizer.py. The format of a feature's number
-- is Python's, the parameter `padded`.
pub mod Labels
pub mod Partition
use Prim.Native.Nat.{Ordering}
use Prim.Native.String.{compare, ◌++◌ as join_text}
use cad2ml.Prelude.{
  ℕ, zero, suc, ◌+◌, Bool, true, false, not, ◌&&◌, List, [], ◌∷◌, ◌++◌, Option, none, some, String,
  str_eq, if◌then◌else◌, map, keep, length, ◌==◌, ltb, contains, any,
}
use cad2ml.Prelude.Options.{◌>>=◌, each}
use cad2ml.Prelude.Texts.{less_texts}
use cad2ml.Semantics.Records.{
  Floats, FaceRecord, EdgeRecord, RecognizerConfig, FeatureRecord, FeatureType, Evidence,
  Observation, Params, Surface, number, text, vector, through_hole, blind_hole,
  cylindrical_hole_wall, slot, pocket, fillet, planar_face, unknown, get_key, default, plane,
  cylinder, cone, sphere, torus, other_surface,
}
use cad2ml.Semantics.Context.{Ctx, is_claimed, is_plane, observe, normal_or_zero}
use cad2ml.Semantics.Rules.{check_of, feature_of}
use cad2ml.Semantics.Rules.Holes.{recognize_holes}
use cad2ml.Semantics.Rules.Slots.{recognize_slots}
use cad2ml.Semantics.Rules.Pockets.{recognize_pockets}
use cad2ml.Semantics.Rules.Fillets.{recognize_fillets}

-- The order of `prefix`, and its texts.
abbrev pub type_index : FeatureType → ℕ
type_index through_hole = 0
type_index blind_hole = 1
type_index cylindrical_hole_wall = 2
type_index slot = 3
type_index pocket = 4
type_index fillet = 5
type_index planar_face = 6
type_index unknown = 7

abbrev pub prefix_of : FeatureType → String
prefix_of through_hole = "H"
prefix_of blind_hole = "H"
prefix_of cylindrical_hole_wall = "W"
prefix_of slot = "S"
prefix_of pocket = "P"
prefix_of fillet = "R"
prefix_of planar_face = "PL"
prefix_of unknown = "U"

-- `FEATURE_TO_FACE_LABEL`
abbrev pub label_of_type : FeatureType → String
label_of_type through_hole = "hole"
label_of_type blind_hole = "hole"
label_of_type cylindrical_hole_wall = "hole"
label_of_type slot = "slot"
label_of_type pocket = "pocket"
label_of_type fillet = "fillet"
label_of_type planar_face = "planar"
label_of_type unknown = "other"

abbrev pub surface_name : Surface → String
surface_name plane = "plane"
surface_name cylinder = "cylinder"
surface_name cone = "cone"
surface_name sphere = "sphere"
surface_name torus = "torus"
surface_name (other_surface s) = s

abbrev pub ClaimTable : Type 0
ClaimTable = List (String × FeatureType)

module _ (F : Floats) where
  -- The features of one rule: one with a face that is claimed is skipped, any other claims its faces.
  unfoldable pub claim_faces :
      List (FeatureRecord F) → ClaimTable → ClaimTable × List (FeatureRecord F)
  claim_faces [] claimed = (claimed, [])
  claim_faces (feat ∷ feats) claimed =
      let skipped : ClaimTable × List (FeatureRecord F) = claim_faces feats claimed in
      let taken : ClaimTable × List (FeatureRecord F) =
        claim_faces feats (map (λ k. (k, feat.feature_type)) feat.participating_faces ++ claimed) in
      if any (is_claimed F claimed) feat.participating_faces
      then skipped
      else (taken.0, feat ∷ taken.1)

  -- The rules in order; each reads what the earlier ones claimed.
  unfoldable pub run_rules :
      List (Ctx F → Option (List (FeatureRecord F)))
      → Ctx F
      → Option (ClaimTable × List (FeatureRecord F))
  unfolding claim_faces
  run_rules [] ctx = some (ctx.claimed, [])
  run_rules (rule ∷ rules) ctx = rule ctx >>= λ found.
      let taken : ClaimTable × List (FeatureRecord F) = claim_faces found ctx.claimed in
      run_rules rules
        (record { faces = ctx.faces; edges = ctx.edges; cfg = ctx.cfg; claimed = taken.0 })
      >>= λ rest. some (rest.0, taken.1 ++ rest.1)

  -- The feature of a face that no rule has claimed.
  unfoldable pub leftover : FaceRecord F → FeatureRecord F
  leftover f =
      if is_plane f.surface_type
      then feature_of F planar_face (f.face_id ∷ [])
          (("normal", vector (normal_or_zero F f)) ∷ ("area_mm2", number f.area_mm2) ∷ [])
          (check_of F "analytic_plane_surface" true
            ∷ check_of F "not_part_of_recognized_feature" true
            ∷ [])
      else record {
        feature_id = "";
        feature_type = unknown;
        participating_faces = f.face_id ∷ [];
        parameters = ("surface_type", text (surface_name f.surface_type)) ∷ [];
        confidence = F.lit "0.0";
        evidence = check_of F "any_rule_matched" false ∷ [];
      }

  unfoldable pub leftovers : ClaimTable → List (FaceRecord F) → List (FeatureRecord F)
  unfolding leftover
  leftovers claimed [] = []
  leftovers claimed (f ∷ fs) =
      if is_claimed F claimed f.face_id
      then leftovers claimed fs
      else leftover f ∷ leftovers claimed fs

  -- `feats.sort(key=...)`, which is stable.
  abbrev pub comes_before : FeatureRecord F → FeatureRecord F → Bool
  comes_before a b =
      if type_index a.feature_type == type_index b.feature_type
      then less_texts a.participating_faces b.participating_faces
      else ltb (type_index a.feature_type) (type_index b.feature_type)

  unfoldable pub insert_feature : FeatureRecord F → List (FeatureRecord F) → List (FeatureRecord F)
  insert_feature x [] = x ∷ []
  insert_feature x (y ∷ ys) = if comes_before y x then y ∷ insert_feature x ys else x ∷ y ∷ ys

  unfoldable pub sort_features : List (FeatureRecord F) → List (FeatureRecord F)
  unfolding insert_feature
  sort_features [] = []
  sort_features (x ∷ xs) = insert_feature x (sort_features xs)

  abbrev pub with_id : FeatureRecord F → String → FeatureRecord F
  with_id feat k = record {
    feature_id = k;
    feature_type = feat.feature_type;
    participating_faces = feat.participating_faces;
    parameters = feat.parameters;
    confidence = feat.confidence;
    evidence = feat.evidence;
  }

  -- The counters of the prefixes, the newest value in front.
  unfoldable pub number_features :
      (ℕ → String) → List (String × ℕ) → List (FeatureRecord F) → List (FeatureRecord F)
  number_features padded counters [] = []
  number_features padded counters (feat ∷ feats) =
      let p : String = prefix_of feat.feature_type in
      let n : ℕ = suc (default zero (get_key p counters)) in
      with_id feat (join_text p (padded n)) ∷ number_features padded ((p, n) ∷ counters) feats

  -- The features from the claims and the features of the rules.
  unfoldable pub finish :
      (ℕ → String)
      → List (FaceRecord F)
      → ClaimTable × List (FeatureRecord F)
      → List (FeatureRecord F)
  unfolding leftovers sort_features number_features
  finish padded faces (claimed, feats) =
      number_features padded [] (sort_features (feats ++ leftovers claimed faces))

  abbrev pub rules : List (Ctx F → Option (List (FeatureRecord F)))
  rules = recognize_holes F ∷ recognize_slots F ∷ recognize_pockets F ∷ recognize_fillets F ∷ []

  unfoldable pub recognize :
      (ℕ → String)
      → List (FaceRecord F)
      → List (EdgeRecord F)
      → RecognizerConfig F
      → Option (List (Observation F) × List (FeatureRecord F))
  unfolding run_rules finish
  recognize padded faces edges cfg =
      run_rules rules (record { faces = faces; edges = edges; cfg = cfg; claimed = [] })
      >>= λ found. observe F faces >>= λ obs. some (obs, finish padded faces found)

  -- The labels of the faces; the newest entry of an id is in front.
  unfoldable pub face_labels : List (FaceRecord F) → List (String × String)
  face_labels [] = []
  face_labels (f ∷ fs) =
      (f.face_id, if is_plane f.surface_type then "planar" else "other") ∷ face_labels fs

  unfoldable pub labels_from :
      List (FeatureRecord F) → List (String × String) → List (String × String)
  labels_from [] lab = lab
  labels_from (feat ∷ feats) lab =
      labels_from feats
        (map (λ k. (k, label_of_type feat.feature_type)) feat.participating_faces ++ lab)

  unfoldable pub face_labels_from_features :
      List (FaceRecord F) → List (FeatureRecord F) → List (String × String)
  unfolding face_labels labels_from
  face_labels_from_features faces feats = labels_from feats (face_labels faces)
