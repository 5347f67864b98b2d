-- ===== src/Examples/Recognizer.antt =====
-- Runs of cad2ml/semantics/recognizer.py on two planes with a fillet between them.
use cad2ml.Prelude.{
  ℕ, ◌≡◌, refl, false, List, [], ◌∷◌, none, some, String, ◌==◌, All, if◌then◌else◌,
}
use cad2ml.Prelude.Forest.{find, union, unions}
use cad2ml.Semantics.Context.{
  unit, confidence_of, angular_span, material_side, normal_or_zero, scalar, direction, radius_or,
  measurements, observe, axis_of, cos_tol, parallel, edges_between, is_blend,
}
use cad2ml.Semantics.Recognize.{
  claim_faces, run_rules, leftover, leftovers, insert_feature, sort_features, number_features,
  finish, recognize,
}
use cad2ml.Semantics.Rules.{put_in_group, group_from, group_coaxial, components}
use cad2ml.Semantics.Rules.Fillets.{
  part_diagonal, spans_of, group_span, smooth_neighbours, fillet_of, fillets_of, recognize_fillets,
}
use cad2ml.Semantics.Rules.Holes.{
  rims_of_edges, rims_of, end_kind, ends_of, bore_of, numbered_segments, bores, recognize_holes,
}
use cad2ml.Semantics.Rules.Holes.Features.{
  extra_of_ends, extra_of, terminal_of, verdict, found_of, same_bores, merge_from, features_of,
}
use cad2ml.Semantics.Rules.Holes.Stacks.{links_of_ends, links_from, linked, stacks_from}
use cad2ml.Semantics.Rules.Pockets.{
  joins_ring, ring_walk, ring_of, pocket_of, pocket_at, pockets_of, recognize_pockets,
}
use cad2ml.Semantics.Rules.Slots.{
  halves_match, stadium_evidence, stadium_params, stadium_of, stadium_at, stadiums_with, stadiums,
  recognize_slots,
}
use cad2ml.Semantics.Rules.Slots.Open.{
  walls_behind, walls_at, walls_around, open_slot_of, open_slot_at, open_slots,
}
use cad2ml.Semantics.Walks.{offer, walk, component_of, connected_from, connected, is_coaxial}
use cad2ml.Semantics.Records.{
  FaceRecord, EdgeRecord, RecognizerConfig, FeatureRecord, Observation, Surface, plane, cylinder,
  smooth, default,
}
use cad2ml.Semantics.Context.{Ctx}
use cad2ml.Semantics.Walks.{done, connected}
use cad2ml.Semantics.Walks.Worklist.{is_out}
use cad2ml.Semantics.Walks.Components.{occurs_in, connected_ends, connected-partitions}
use cad2ml.Semantics.Rules.Pockets.{ring_walk}
use cad2ml.Semantics.Rules.Pockets.Ring.{ring_ends}
use cad2ml.Semantics.Rules.Holes.Stacks.{linked}
use cad2ml.Semantics.Rules.Holes.Linked.{StacksJoined, stacks_joined}
use cad2ml.Semantics.Recognize.{recognize, face_labels_from_features}
use cad2ml.Semantics.Recognize.Partition.{times, recognize-partitions}
use cad2ml.Semantics.Recognize.Labels.{HasLabelOf, recognize-labels}
use cad2ml.Examples.Numbers.{naturals}

abbrev face_record : String → Surface → List String → List String → FaceRecord naturals
face_record id surface neighbours edges = record {
  face_id = id;
  surface_type = surface;
  area_mm2 = 1;
  centroid_mm = 0 ∷ [];
  normal_at_centroid = none;
  bbox_min_mm = 0 ∷ [];
  bbox_max_mm = 1 ∷ [];
  u_from = 0;
  u_to = 1;
  v_from = 0;
  v_to = 1;
  numbers = ("radius", 1) ∷ [];
  vectors = ("axis", 1 ∷ []) ∷ ("axis_origin", 0 ∷ []) ∷ [];
  mean_curvature = none;
  adjacent_face_ids = neighbours;
  boundary_edge_ids = edges;
  outer_loop_edge_ids = edges;
}

abbrev edge_record : String → List String → EdgeRecord naturals
edge_record id faces = record {
  edge_id = id;
  start_mm = 0 ∷ [];
  adjacent_face_ids = faces;
  convexity = smooth;
}

abbrev part : List (FaceRecord naturals)
part =
    face_record "F0" plane ("F2" ∷ []) ("e0" ∷ [])
    ∷ face_record "F1" plane ("F2" ∷ []) ("e1" ∷ [])
    ∷ face_record "F2" cylinder ("F0" ∷ "F1" ∷ []) ("e0" ∷ "e1" ∷ [])
    ∷ []

abbrev part_edges : List (EdgeRecord naturals)
part_edges = edge_record "e0" ("F2" ∷ "F0" ∷ []) ∷ edge_record "e1" ("F2" ∷ "F1" ∷ []) ∷ []

abbrev settings : RecognizerConfig naturals
settings = record { angle_tol_deg = 1; distance_tol_mm = 1 }

abbrev context : Ctx naturals
context = record { faces = part; edges = part_edges; cfg = settings; claimed = [] }

-- The text of a number, as far as the run needs it.
abbrev three_digits : ℕ → String
three_digits n = if n == 1 then "001" else "002"

-- What the recognizer returns on the part.
abbrev recognized : List (Observation naturals) × List (FeatureRecord naturals)
unfolding recognize
recognized = default ([], []) (recognize naturals three_digits part part_edges settings)

recognized_returns : recognize naturals three_digits part part_edges settings ≡ some recognized
unfolding find union unions unit confidence_of angular_span material_side normal_or_zero scalar
    direction radius_or measurements observe axis_of cos_tol parallel edges_between is_blend
    claim_faces run_rules leftover leftovers insert_feature sort_features number_features finish
    recognize put_in_group group_from group_coaxial components part_diagonal spans_of group_span
    smooth_neighbours fillet_of fillets_of recognize_fillets rims_of_edges rims_of end_kind ends_of
    bore_of numbered_segments bores recognize_holes extra_of_ends extra_of terminal_of verdict
    found_of same_bores merge_from features_of links_of_ends links_from linked stacks_from
    joins_ring ring_walk ring_of pocket_of pocket_at pockets_of recognize_pockets halves_match
    stadium_evidence stadium_params stadium_of stadium_at stadiums_with stadiums recognize_slots
    walls_behind walls_at walls_around open_slot_of open_slot_at open_slots offer walk component_of
    connected_from connected is_coaxial
recognized_returns = refl

recognize-partitions_example : times naturals "F2" recognized.1 ≡ 1
recognize-partitions_example =
    recognize-partitions naturals "F2" three_digits part part_edges settings recognized
      recognized_returns refl

recognize-labels_example :
    All
      (HasLabelOf naturals "F2" (face_labels_from_features naturals part recognized.1))
      recognized.1
recognize-labels_example =
    recognize-labels naturals "F2" three_digits part part_edges settings recognized
      recognized_returns refl

-- The components of all three faces.
abbrev part_components : List (List String)
part_components = ("F0" ∷ "F2" ∷ "F1" ∷ []) ∷ []

connected_returns : connected naturals context ("F0" ∷ "F1" ∷ "F2" ∷ []) ≡ done part_components
unfolding connected connected_from component_of walk offer
connected_returns = refl

connected-partitions_example : occurs_in "F1" part_components ≡ 1
connected-partitions_example =
    connected-partitions naturals context ("F0" ∷ "F1" ∷ "F2" ∷ []) "F1" part_components
      connected_returns refl

connected_ends_example : is_out (connected naturals context ("F0" ∷ "F1" ∷ "F2" ∷ [])) ≡ false
connected_ends_example = connected_ends naturals context ("F0" ∷ "F1" ∷ "F2" ∷ [])

ring_ends_example : is_out (ring_walk naturals context "F1" ("F0" ∷ [])) ≡ false
ring_ends_example = ring_ends naturals context "F1" ("F0" ∷ [])

stacks_joined_example : StacksJoined naturals ((1, 0) ∷ (2, 1) ∷ [])
stacks_joined_example = stacks_joined naturals ((1, 0) ∷ (2, 1) ∷ [])
