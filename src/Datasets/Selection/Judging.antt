-- ===== src/Datasets/Selection/Judging.antt =====
-- What the tests of the selection in cad2ml/datasets/builder.py decide about one manifest.
use text.Mathlib.TextPositions.{eq_refl}
use cad2ml.Prelude.{
  ◌≡◌, refl, inl, inr, Bool, true, List, [], ◌∷◌, none, some, String, str_eq, eq_iff, arith,
  Bool-cases, Option-cases, ◌⊎◌, all, contains, All,
}
use cad2ml.Semantics.Records.{Floats, get_key}
use cad2ml.Datasets.Selection.{
  Entry, Versions, Truth, Verdict, takes, leaves, Reason, judge, required_artifacts, is_current,
  has_artifacts,
}

all→All : (p : String → Bool) (xs : List String) → all p xs ≡ true → All (λ x. p x ≡ true) xs
all→All p [] h = tt
all→All p (x ∷ xs) h = (ground arith, all→All p xs (ground arith))

All→all : (p : String → Bool) (xs : List String) → All (λ x. p x ≡ true) xs → all p xs ≡ true
All→all p [] h = refl
All→all p (x ∷ xs) h = rw h.0 (All→all p xs h.1)

abbrev pub verdict-Cases : Verdict → Type 0
verdict-Cases v = ((gt : Truth) × (v ≡ takes gt)) ⊎ ((r : Reason) × (v ≡ leaves r))

pub verdict-cases : (v : Verdict) → verdict-Cases v
verdict-cases (takes gt) = inl (gt, refl)
verdict-cases (leaves r) = inr (r, refl)

module _ (F : Floats) (now : Versions) (gts : List (String × Truth)) where
  -- A manifest that can be taken: completed by this version of the pipeline under this configuration, with a ground truth
  -- and all artifacts.
  abbrev pub IsAcceptable : Entry F → Type 0
  IsAcceptable m =
      (m.status ≡ "completed")
      × (m.configuration_hash ≡ now.configuration_hash)
      × (m.pipeline_version ≡ now.pipeline_version)
      × (m.schema_version ≡ now.schema_version)
      × ((gt : Truth) × (get_key m.sha256 gts ≡ some gt))
      × All (λ a. contains m.artifacts a ≡ true) required_artifacts

  pub judge-takes :
      (by_sha : List (String × String)) (m : Entry F) (gt : Truth)
      → judge F now gts by_sha m ≡ takes gt
      → IsAcceptable m × (get_key m.sha256 gts ≡ some gt) × (get_key m.sha256 by_sha ≡ none)
  unfolding judge
  judge-takes by_sha m gt h = elim (Bool-cases (str_eq m.status "completed")) [
    | inr q ↦ let no : ⊥ = ground arith in absurd no
    | inl q ↦ elim (Bool-cases (is_current F now gts m)) [
      | inr c ↦ let no : ⊥ = ground arith in absurd no
      | inl c ↦ elim (Option-cases (get_key m.sha256 by_sha)) [
        | inr (id, e) ↦ let no : ⊥ = ground arith in absurd no
        | inl e ↦ elim (Option-cases (get_key m.sha256 gts)) [
          | inl g ↦ let no : ⊥ = ground arith in absurd no
          | inr (gt', g) ↦ elim (Bool-cases (has_artifacts F now gts m)) [
            | inr a ↦ let no : ⊥ = ground arith in absurd no
            | inl a ↦
                let same_ : gt' ≡ gt = ground arith in
                (
                  (
                    (eq_iff m.status "completed").0 q,
                    ground (arith, eq_iff m.configuration_hash now.configuration_hash),
                    ground (arith, eq_iff m.pipeline_version now.pipeline_version),
                    ground (arith, eq_iff m.schema_version now.schema_version),
                    (gt', g),
                    all→All (contains m.artifacts) required_artifacts a,
                  ),
                  rw (← same_) g,
                  e,
                )
          ]
        ]
      ]
    ]
  ]

  pub judge-leaves :
      (by_sha : List (String × String)) (m : Entry F) (r : Reason)
      → judge F now gts by_sha m ≡ leaves r
      → IsAcceptable m
      → (id : String) × (get_key m.sha256 by_sha ≡ some id)
  unfolding judge
  judge-leaves by_sha m r h (status, config, pipeline, schema, (gt, g), artifacts) =
      elim (Option-cases (get_key m.sha256 by_sha)) [
        | inr there ↦ there
        | inl e ↦
            let current : is_current F now gts m ≡ true =
              rw
                (
                  config,
                  pipeline,
                  schema,
                  eq_refl now.configuration_hash,
                  eq_refl now.pipeline_version,
                  eq_refl now.schema_version,
                )
                refl in
            let whole : has_artifacts F now gts m ≡ true =
              All→all (contains m.artifacts) required_artifacts artifacts in
            let done : str_eq m.status "completed" ≡ true = rw status refl in
            let no : ⊥ = ground arith in absurd no
      ]
