-- ===== src/Semantics/Rules/Holes.antt =====
-- `_recognize_holes` of cad2ml/semantics/recognizer.py: the bores and their ends; the stacks of bores are in Stacks,
-- the features of stacks in Features.
pub mod Features
pub mod Linked
pub mod Stacks
use cad2ml.Prelude.{
  ℕ, zero, suc, Bool, true, false, not, ◌&&◌, ◌||◌, List, [], ◌∷◌, ◌++◌, Option, none, some, String,
  str_eq, if◌then◌else◌, map, keep, all, contains, ◌==◌, leb,
}
use cad2ml.Prelude.Options.{◌>>=◌, each}
use cad2ml.Prelude.Texts.{set_of}
use cad2ml.Semantics.Records.{Floats, FaceRecord, EdgeRecord, FeatureRecord}
use cad2ml.Semantics.Context.{
  Ctx, is_cylinder, is_outside, material_side, angular_span, axis_of, Axis, edge, is_seam,
  is_convex, is_smooth, is_concave,
}
use cad2ml.Semantics.Walks.{step_to_segment, closing_floor}
use cad2ml.Semantics.Rules.{total, ids_of, group_coaxial, components_of_groups, twice}
use cad2ml.Semantics.Rules.Holes.Stacks.{
  Bore, End, EndKind, end_open, end_other, end_floor, end_step,
}
use cad2ml.Semantics.Rules.Holes.Features.{features_of}

-- Integers as a sign (true below 0) and a size.
abbrev pub same_int : Bool × ℕ → Bool × ℕ → Bool
same_int (true, suc m) (true, suc n) = m == n
same_int (false, m) (false, n) = m == n
same_int (_, zero) (_, zero) = true
same_int _ _ = false

abbrev pub le_int : Bool × ℕ → Bool × ℕ → Bool
le_int (true, m) (true, n) = leb n m
le_int (false, m) (false, n) = leb m n
le_int (true, m) (false, n) = true
le_int (false, zero) (true, zero) = true
le_int (false, _) (true, _) = false

module _ (F : Floats) where
  abbrev pub Rim : Type 0
  Rim = List (EdgeRecord F × String)

  -- `rims.setdefault(pos, []).append(item)`
  abbrev pub add_rim :
      Bool × ℕ → EdgeRecord F × String → List ((Bool × ℕ) × Rim) → List ((Bool × ℕ) × Rim)
  add_rim pos item [] = (pos, item ∷ []) ∷ []
  add_rim pos item ((q, rim) ∷ rims) =
      if same_int pos q then (q, rim ++ item ∷ []) ∷ rims else (q, rim) ∷ add_rim pos item rims

  -- `sorted(rims)`
  abbrev pub insert_rim : (Bool × ℕ) × Rim → List ((Bool × ℕ) × Rim) → List ((Bool × ℕ) × Rim)
  insert_rim x [] = x ∷ []
  insert_rim x (y ∷ ys) = if le_int x.0 y.0 then x ∷ y ∷ ys else y ∷ insert_rim x ys

  abbrev pub sorted_rims : List ((Bool × ℕ) × Rim) → List ((Bool × ℕ) × Rim)
  sorted_rims [] = []
  sorted_rims (x ∷ xs) = insert_rim x (sorted_rims xs)

  -- The edges of a face that are no seam and lead out of the bore.
  unfoldable pub rims_of_edges :
      List String
      → List F.R
      → List (EdgeRecord F)
      → List ((Bool × ℕ) × Rim)
      → List ((Bool × ℕ) × Rim)
  rims_of_edges ids ax [] rims = rims
  rims_of_edges ids ax (e ∷ es) rims = elim (keep (λ a. not (contains ids a)) e.adjacent_face_ids) [
    | [] ↦ rims_of_edges ids ax es rims
    | other ∷ others ↦ rims_of_edges ids ax es (
        if is_seam e.convexity
        then rims
        else add_rim (F.round_centi (F.dot e.start_mm ax)) (e, other) rims)
  ]

  module _ (ctx : Ctx F) where
    unfoldable pub rims_of :
        List String
        → List F.R
        → List (FaceRecord F)
        → List ((Bool × ℕ) × Rim)
        → Option (List ((Bool × ℕ) × Rim))
    unfolding rims_of_edges
    rims_of ids ax [] rims = some rims
    rims_of ids ax (f ∷ seg) rims = each (edge F ctx) f.boundary_edge_ids >>= λ es.
        rims_of ids ax seg (rims_of_edges ids ax es rims)

    abbrev pub rim_all : (EdgeRecord F → Bool) → Rim → Bool
    rim_all p rim = all (λ (x : EdgeRecord F × String). p x.0) rim

    abbrev pub floor_or_other : List String → EndKind
    floor_or_other [] = end_other
    floor_or_other (k ∷ ks) = end_floor (k ∷ ks)

    -- The kind of one end, from the edges of its rim.
    unfoldable pub end_kind :
        List String → List F.R → List F.R → List (String × ℕ) → Rim → List String → Option EndKind
    end_kind ids ax o seg_of rim nb =
        if rim_all (λ (e : EdgeRecord F). is_convex e.convexity || is_smooth e.convexity) rim
        then some end_open
        else if rim_all (λ (e : EdgeRecord F). is_concave e.convexity) rim
        then (step_to_segment F ctx nb ids ax o seg_of >>= λ step. elim step [
          | some (trans, to) ↦ some (end_step trans to)
          | none ↦ closing_floor F ctx nb ids ax o >>= λ closing. some (floor_or_other closing)
        ])
        else some end_other

    unfoldable pub ends_of :
        List String
        → List F.R
        → List F.R
        → List (String × ℕ)
        → List ((Bool × ℕ) × Rim)
        → Option (List (End F))
    unfolding end_kind
    ends_of ids ax o seg_of [] = some []
    ends_of ids ax o seg_of ((pos, rim) ∷ rims) =
        let nb : List String = set_of (map (λ (x : EdgeRecord F × String). x.1) rim) in
        end_kind ids ax o seg_of rim nb >>= λ kind. ends_of ids ax o seg_of rims >>= λ rest.
        some (record { pos = F.of_centi pos; kind = kind; nb = nb } ∷ rest)

    -- One entry of `info`. A segment is not empty.
    unfoldable pub bore_of : List (String × ℕ) → List (FaceRecord F) → Option (Bore F)
    unfolding rims_of ends_of
    bore_of seg_of [] = none
    bore_of seg_of (f ∷ seg) = axis_of F f >>= λ a.
        rims_of (ids_of F (f ∷ seg)) a.along (f ∷ seg) [] >>= λ rims.
        ends_of (ids_of F (f ∷ seg)) a.along a.point seg_of (sorted_rims rims) >>= λ ends.
        some (record {
          seg = f ∷ seg;
          along = a.along;
          point = a.point;
          radius = a.radius;
          ends = ends;
        })

    abbrev pub is_full : List (FaceRecord F) → Bool
    is_full seg =
        F.lt (F.abs (F.sub (total F (map (angular_span F) seg)) (twice F F.pi)))
          (F.radians ctx.cfg.angle_tol_deg)

    abbrev pub is_bore_face : FaceRecord F → Bool
    is_bore_face f = is_cylinder f.surface_type && is_outside (material_side F f)

    -- `seg_of`: the later entry of an id is in front.
    unfoldable pub numbered_segments :
        ℕ → List (List (FaceRecord F)) → List (String × ℕ) → List (String × ℕ)
    numbered_segments i [] seg_of = seg_of
    numbered_segments i (seg ∷ full) seg_of =
        numbered_segments (suc i) full (map (λ (f : FaceRecord F). (f.face_id, i)) seg ++ seg_of)

    unfoldable pub bores : Option (List (Bore F))
    unfolding numbered_segments bore_of
    bores = group_coaxial F ctx (keep is_bore_face ctx.faces) true >>= λ groups.
        components_of_groups F ctx groups >>= λ segments.
        let full : List (List (FaceRecord F)) = keep is_full segments in
        each (bore_of (numbered_segments zero full [])) full

    unfoldable pub recognize_holes : Option (List (FeatureRecord F))
    unfolding bores
    recognize_holes = bores >>= λ info. features_of F ctx info
