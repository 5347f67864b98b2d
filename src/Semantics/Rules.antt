-- ===== src/Semantics/Rules.antt =====
-- What the rules of cad2ml/semantics/recognizer.py share: rounding, sums, the groups of coaxial faces. The rules are
-- in the files of Rules/.
pub mod Fillets
pub mod Holes
pub mod Pockets
pub mod Slots
use cad2ml.Prelude.{
  ℕ, Bool, true, false, not, ◌&&◌, ◌||◌, List, [], ◌∷◌, ◌++◌, Option, none, some, String,
  if◌then◌else◌, map, all, ◌==◌,
}
use cad2ml.Prelude.Options.{◌>>=◌, each}
use cad2ml.Semantics.Records.{
  Floats, FaceRecord, EdgeRecord, Evidence, FeatureRecord, FeatureType, Params, Value, number,
  vector, Side, inside, outside, not_applicable, default, get_key,
}
use cad2ml.Semantics.Context.{
  Ctx, Axis, axis_of, parallel, face, confidence_of, normal_or_zero, unit, material_side,
}
use cad2ml.Semantics.Walks.{connected, to_option}

abbrev pub same_side : Side → Side → Bool
same_side inside inside = true
same_side outside outside = true
same_side not_applicable not_applicable = true
same_side _ _ = false

module _ (F : Floats) where
  -- `sum(xs)`, which starts from 0.
  abbrev pub total_from : F.R → List F.R → F.R
  total_from acc [] = acc
  total_from acc (x ∷ xs) = total_from (F.add acc x) xs

  abbrev pub total : List F.R → F.R
  total xs = total_from (F.lit "0") xs

  abbrev pub rounded : List F.R → Value F
  rounded v = vector (map (λ x. F.round x 6) v)

  abbrev pub twice : F.R → F.R
  twice r = F.mul (F.lit "2") r

  abbrev pub check_of : String → Bool → Evidence F
  check_of name b = record { check = name; passed = b }

  -- `_u(f.normal_at_centroid or [0, 0, 0])`
  abbrev pub unit_normal : FaceRecord F → List F.R
  unit_normal f = unit F (normal_or_zero F f)

  abbrev pub ids_of : List (FaceRecord F) → List String
  ids_of fs = map (λ (f : FaceRecord F). f.face_id) fs

  -- A feature as a rule makes it: its id is set later.
  abbrev pub feature_of : FeatureType → List String → Params F → List (Evidence F) → FeatureRecord F
  feature_of t ids params ev = record {
    feature_id = "";
    feature_type = t;
    participating_faces = ids;
    parameters = params;
    confidence = confidence_of F ev;
    evidence = ev;
  }

  -- All faces lie on the same side of the material.
  abbrev pub one_side : List (FaceRecord F) → Bool
  one_side [] = false
  one_side (f ∷ fs) =
      all (λ (g : FaceRecord F). same_side (material_side F f) (material_side F g)) fs

  module _ (ctx : Ctx F) where
    abbrev pub coaxial_tol : F.R
    coaxial_tol = F.mul (F.max ctx.cfg.distance_tol_mm (F.lit "1e-4")) (F.lit "10")

    abbrev pub same_axis : Bool → Axis F → Axis F → Bool
    same_axis same_radius a g =
        parallel F ctx a.along g.along
        && F.lt (F.norm (F.minus a.point g.point)) coaxial_tol
        && (not same_radius || F.lt (F.abs (F.sub a.radius g.radius)) coaxial_tol)

    -- The first group with the axis takes the face; else it opens a group.
    unfoldable pub put_in_group :
        Bool
        → Axis F
        → FaceRecord F
        → List (Axis F × List (FaceRecord F))
        → List (Axis F × List (FaceRecord F))
    put_in_group same_radius a f [] = (a, f ∷ []) ∷ []
    put_in_group same_radius a f ((g, fs) ∷ groups) =
        if same_axis same_radius a g
        then (g, fs ++ f ∷ []) ∷ groups
        else (g, fs) ∷ put_in_group same_radius a f groups

    unfoldable pub group_from :
        Bool
        → List (FaceRecord F)
        → List (Axis F × List (FaceRecord F))
        → Option (List (Axis F × List (FaceRecord F)))
    unfolding put_in_group
    group_from same_radius [] groups = some groups
    group_from same_radius (f ∷ cand) groups =
        axis_of F f >>= λ a. group_from same_radius cand (put_in_group same_radius a f groups)

    unfoldable pub group_coaxial : List (FaceRecord F) → Bool → Option (List (List (FaceRecord F)))
    unfolding group_from
    group_coaxial cand same_radius = group_from same_radius cand [] >>= λ groups.
        some (map (λ (p : Axis F × List (FaceRecord F)). p.1) groups)

    -- `_connected` on the records.
    unfoldable pub components : List (FaceRecord F) → Option (List (List (FaceRecord F)))
    components fs =
        to_option (connected F ctx (ids_of fs)) >>= λ comps. each (each (face F ctx)) comps

    abbrev pub components_of_groups :
        List (List (FaceRecord F)) → Option (List (List (FaceRecord F)))
    components_of_groups [] = some []
    components_of_groups (g ∷ gs) =
        components g >>= λ a. components_of_groups gs >>= λ b. some (a ++ b)
