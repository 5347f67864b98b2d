-- ===== src/Semantics/Rules/Pockets/Ring.antt =====
-- The loop of `_recognize_pockets` in cad2ml/semantics/recognizer.py that collects the walls of a pocket ends.
use cad2ml.Prelude.{
  suc, ◌+◌, ◌≡◌, refl, true, false, List, [], ◌∷◌, some, String, arith, length, length-append,
  contains, Option-cases, inl, inr,
}
use mathlib.Core.List.{reverse, reverse-cons}
use cad2ml.Prelude.Options.{answer-cases}
use cad2ml.Semantics.Records.{Floats, FaceRecord}
use cad2ml.Semantics.Context.{Ctx, face, find_face, all_smooth}
use cad2ml.Semantics.Walks.{adjacent}
use cad2ml.Semantics.Walks.Worklist.{is_out, unseen-all, walk_ends}
use cad2ml.Semantics.Rules.{ids_of}
use cad2ml.Semantics.Rules.Pockets.{joins_ring, ring_walk}

length-reverse : (xs : List String) → length (reverse xs) ≡ length xs
length-reverse [] = refl
length-reverse (x ∷ xs) =
    rw (reverse-cons x xs) (omega (arith, length-append (reverse xs) (x ∷ []), length-reverse xs))

module _ (F : Floats) where
  length-ids : (fs : List (FaceRecord F)) → length (ids_of F fs) ≡ length fs
  length-ids [] = refl
  length-ids (f ∷ fs) = omega (arith, length-ids fs)

  find_face-contains :
      (fs : List (FaceRecord F)) (k : String) (g : FaceRecord F)
      → find_face F fs k ≡ some g
      → contains (ids_of F fs) k ≡ true
  find_face-contains [] k g h = cc
  find_face-contains (f ∷ fs) k g h = elim (Option-cases (find_face F fs k)) [
    | inl e ↦ ground arith
    | inr (g', e) ↦ ground (arith, find_face-contains fs k g')
  ]

  module _ (ctx : Ctx F) where
    joins_ring-contains :
        (floor_id w n : String)
        → joins_ring F ctx floor_id w n ≡ some true
        → contains (ids_of F ctx.faces) n ≡ true
    unfolding joins_ring
    joins_ring-contains floor_id w n h = elim (Option-cases (face F ctx n)) [
      | inr (g, e) ↦ find_face-contains ctx.faces n g e
      | inl e ↦ elim (answer-cases (all_smooth F ctx w n)) [
        | inl q ↦ ground arith
        | inr (inl q) ↦ ground arith
        | inr (inr q) ↦ ground arith
      ]
    ]

    -- The loop that collects the walls of a pocket ends within its fuel.
    pub ring_ends :
        (floor_id : String) (walls : List String) → is_out (ring_walk F ctx floor_id walls) ≡ false
    unfolding ring_walk
    ring_ends floor_id walls =
        walk_ends (adjacent F ctx) (joins_ring F ctx floor_id) (ids_of F ctx.faces)
          (joins_ring-contains floor_id) (suc (length ctx.faces + length walls)) walls
          (reverse walls) []
          (omega (
            arith,
            unseen-all (ids_of F ctx.faces) walls,
            length-ids ctx.faces,
            length-reverse walls,
          ))
