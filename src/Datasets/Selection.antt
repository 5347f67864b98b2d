-- ===== src/Datasets/Selection.antt =====
-- The first loop of `build_dataset` in cad2ml/datasets/builder.py: which manifests a dataset takes, and why it leaves the
-- others. A manifest is what the loop reads of it; `gts` are the ground truths by the digest of the source.
pub mod Judging
pub mod Steps
pub mod Sound
use cad2ml.Prelude.{
  ℕ, zero, suc, Bool, true, false, not, ◌&&◌, List, [], ◌∷◌, ◌++◌, Option, none, some, String,
  str_eq, if◌then◌else◌, all, contains,
}
use Prim.Native.String.{◌++◌ as join_text}
use cad2ml.Prelude.Options.{◌>>=◌}
use cad2ml.Semantics.Records.{Floats, get_key, default}
use cad2ml.Datasets.Clusters.{Signature}

pub record Entry (F : Floats) : Type 0 where
  pub sample_id : String
  pub filename : String
  pub sha256 : String
  -- The status, and the code of the rejection.
  pub status : String
  pub rejection_code : Option String
  pub configuration_hash : String
  pub pipeline_version : String
  pub schema_version : String
  pub artifacts : List String
  -- `geometry_signature`, which asserts that there is a geometry.
  pub signature : Option (Signature F)

pub record Versions : Type 0 where
  pub configuration_hash : String
  pub pipeline_version : String
  pub schema_version : String

pub record Truth : Type 0 where
  pub family : String
  pub group : String

-- Why a manifest is left out.
pub data Reason : Type 0 where
  bad_status : String → String → Reason
  config_or_version_mismatch : Reason
  exact_duplicate_of : String → Reason
  no_ground_truth_sidecar : Reason
  missing_artifacts : Reason

pub data Verdict : Type 0 where
  takes : Truth → Verdict
  leaves : Reason → Verdict

pub record Excluded : Type 0 where
  pub sample_id : String
  pub filename : String
  pub reason : Reason

pub record Included (F : Floats) : Type 0 where
  pub sample_id : String
  pub source_sha256 : String
  pub filename : String
  pub family : String
  pub group : String
  pub signature : Signature F

-- The key under which the reason is counted.
abbrev pub counted_as : Reason → String
counted_as (bad_status status code) = join_text status (join_text ":" code)
counted_as config_or_version_mismatch = "config_or_version_mismatch"
counted_as (exact_duplicate_of id) = "exact_duplicate_of"
counted_as no_ground_truth_sidecar = "no_ground_truth_sidecar"
counted_as missing_artifacts = "missing_artifacts"

-- `reasons[key] += 1`
abbrev pub count_reason : String → List (String × ℕ) → List (String × ℕ)
count_reason k [] = (k, 1) ∷ []
count_reason k ((j, n) ∷ reasons) =
    if str_eq j k then (j, suc n) ∷ reasons else (j, n) ∷ count_reason k reasons

-- `d[k] = v`: a key that is there keeps its place and gets the new value.
abbrev pub set_key {ℓ} : {A : Type ℓ} → String → A → List (String × A) → List (String × A)
set_key k a [] = (k, a) ∷ []
set_key k a ((j, b) ∷ rest) = if str_eq j k then (j, a) ∷ rest else (j, b) ∷ set_key k a rest

abbrev pub required_artifacts : List String
required_artifacts =
    "brep" ∷ "graph" ∷ "pointcloud" ∷ "mesh" ∷ "views" ∷ "cameras" ∷ "features" ∷ "lineage" ∷ []

module _ (F : Floats) (now : Versions) (gts : List (String × Truth)) where
  abbrev pub is_current : Entry F → Bool
  is_current m =
      str_eq m.configuration_hash now.configuration_hash
      && str_eq m.pipeline_version now.pipeline_version
      && str_eq m.schema_version now.schema_version

  abbrev pub has_artifacts : Entry F → Bool
  has_artifacts m = all (contains m.artifacts) required_artifacts

  -- The reason to leave a manifest out, or the ground truth of one that is taken; `by_sha` maps the digests taken so far.
  unfoldable pub judge : List (String × String) → Entry F → Verdict
  judge by_sha m =
      if not (str_eq m.status "completed")
      then leaves (bad_status m.status (default "unknown" m.rejection_code))
      else if not (is_current m)
      then leaves config_or_version_mismatch
      else (elim (get_key m.sha256 by_sha) [
        | some id ↦ leaves (exact_duplicate_of id)
        | none ↦ elim (get_key m.sha256 gts) [
          | none ↦ leaves no_ground_truth_sidecar
          | some gt ↦ if has_artifacts m then takes gt else leaves missing_artifacts
        ]
      ])

  pub record Selected : Type 0 where
    pub included : List (String × Included F)
    pub manifests : List (String × Entry F)
    pub excluded : List Excluded
    pub reasons : List (String × ℕ)
    pub by_sha : List (String × String)

  unfoldable pub take_entry : Entry F → Truth → Selected → Option Selected
  take_entry m gt sel = m.signature >>= λ sig. some (record {
    included =
        set_key m.sample_id
          (record {
            sample_id = m.sample_id;
            source_sha256 = m.sha256;
            filename = m.filename;
            family = gt.family;
            group = gt.group;
            signature = sig;
          })
          sel.included;
    manifests = set_key m.sample_id m sel.manifests;
    excluded = sel.excluded;
    reasons = sel.reasons;
    by_sha = (m.sha256, m.sample_id) ∷ sel.by_sha;
  })

  abbrev pub leave_entry : Entry F → Reason → Selected → Selected
  leave_entry m r sel = record {
    included = sel.included;
    manifests = sel.manifests;
    excluded =
        sel.excluded ++ record { sample_id = m.sample_id; filename = m.filename; reason = r } ∷ [];
    reasons = count_reason (counted_as r) sel.reasons;
    by_sha = sel.by_sha;
  }

  unfoldable pub select_from : List (Entry F) → Selected → Option Selected
  unfolding take_entry
  select_from [] sel = some sel
  select_from (m ∷ ms) sel = elim (judge sel.by_sha m) [
    | takes gt ↦ take_entry m gt sel >>= λ next. select_from ms next
    | leaves r ↦ select_from ms (leave_entry m r sel)
  ]

  abbrev pub nothing_selected : Selected
  nothing_selected = record {
    included = [];
    manifests = [];
    excluded = [];
    reasons = [];
    by_sha = [];
  }

  unfoldable pub select : List (Entry F) → Option Selected
  unfolding select_from
  select ms = select_from ms nothing_selected
