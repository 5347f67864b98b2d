-- ===== src/Semantics/Recognize/Labels.antt =====
-- The labels that `face_labels_from_features` of cad2ml/semantics/recognizer.py reads off the features of `recognize`.
use cad2ml.Prelude.{
  ℕ, ◌≡◌, refl, inl, inr, true, List, [], ◌∷◌, ◌++◌, some, String, if◌then◌else◌, arith, map,
  contains, Bool-cases, All,
}
use cad2ml.Semantics.Records.{
  Floats, FaceRecord, EdgeRecord, RecognizerConfig, FeatureRecord, Observation, get_key,
}
use cad2ml.Semantics.Recognize.{
  recognize, label_of_type, labels_from, face_labels_from_features, face_labels,
}
use cad2ml.Semantics.Recognize.Partition.{times, faces_named, recognize-partitions}

module _ (F : Floats) (k : String) where
  -- The label `l` of `k` is the one of the feature, if it lists the face.
  abbrev pub HasLabelOf : List (String × String) → FeatureRecord F → Type 0
  HasLabelOf lab feat =
      contains feat.participating_faces k ≡ true
      → get_key k lab ≡ some (label_of_type feat.feature_type)

  get_key-map :
      (l : String) (ks : List String) (lab : List (String × String))
      → get_key k (map (λ j. (j, l)) ks ++ lab) ≡ (if contains ks k then some l else get_key k lab)
  get_key-map l [] lab = refl
  get_key-map l (j ∷ ks) lab = ground (arith, get_key-map l ks lab)

  labels-unlisted :
      (feats : List (FeatureRecord F)) (lab : List (String × String))
      → times F k feats ≡ 0
      → get_key k (labels_from F feats lab) ≡ get_key k lab
  unfolding labels_from
  labels-unlisted [] lab h = refl
  labels-unlisted (feat ∷ feats) lab h = ground (
    arith,
    labels-unlisted feats
        (map (λ j. (j, label_of_type feat.feature_type)) feat.participating_faces ++ lab),
    get_key-map (label_of_type feat.feature_type) feat.participating_faces lab,
  )

  unlisted-All :
      (feats : List (FeatureRecord F)) (lab : List (String × String))
      → times F k feats ≡ 0
      → All (HasLabelOf lab) feats
  unlisted-All [] lab h = tt
  unlisted-All (feat ∷ feats) lab h = (λ q. ground arith, unlisted-All feats lab (omega arith))

  labels-All :
      (feats : List (FeatureRecord F)) (lab : List (String × String))
      → times F k feats ≡ 1
      → All (HasLabelOf (labels_from F feats lab)) feats
  unfolding labels_from
  labels-All [] lab h = tt
  labels-All (feat ∷ feats) lab h =
      let next : List (String × String) =
        map (λ j. (j, label_of_type feat.feature_type)) feat.participating_faces ++ lab in
      elim (Bool-cases (contains feat.participating_faces k)) [
        | inl e ↦ (
          λ q. ground (
            arith,
            labels-unlisted feats next,
            get_key-map (label_of_type feat.feature_type) feat.participating_faces lab,
          ),
          unlisted-All feats (labels_from F feats next) (ground arith),
        )
        | inr e ↦ (λ q. ground arith, labels-All feats next (ground arith))
      ]

  -- When `recognize` returns and a face's id occurs once in the input, the label read off its features is,
  -- for a feature that lists the face, the label of the feature's type.
  pub recognize-labels :
      (padded : ℕ → String) (faces : List (FaceRecord F)) (edges : List (EdgeRecord F))
      (cfg : RecognizerConfig F) (r : List (Observation F) × List (FeatureRecord F))
      → recognize F padded faces edges cfg ≡ some r
      → faces_named F k faces ≡ 1
      → All (HasLabelOf (face_labels_from_features F faces r.1)) r.1
  unfolding face_labels_from_features
  recognize-labels padded faces edges cfg r h once =
      labels-All r.1 (face_labels F faces)
        (recognize-partitions F k padded faces edges cfg r h once)
