-- ===== src/Pipeline.antt =====
-- cad2ml/pipeline.py: from the bytes of an upload to a manifest in the store. What the intake, the
-- isolated parser and the isolated extractor answer, hashing, and the text form of a manifest are a
-- parameter, `Env`. Timings, metrics, logs and the temporary directory are left out.
pub mod Process
pub mod Unchanged
pub mod Sources
pub mod Reuse
pub mod Completes
use cad2ml.Prelude.{
  ℕ, zero, suc, Bool, true, false, not, ◌&&◌, ◌≡◌, List, [], ◌∷◌, ◌++◌, Option, none, some, String,
  if◌then◌else◌,
}
use Prim.Native.String.{◌++◌ as append}
use cad2ml.Errors.{
  Outcome, ErrorCode, PipelineError, error_codes, parser_timeout, processing_timeout, child_crashed,
}
use cad2ml.Storage.{ArtifactStore}
use cad2ml.Storage.Paths.{Path_, is_under}

pub data SampleStatus : Type 0 where
  completed rejected quarantined failed : SampleStatus

pub record IntakeResult : Type 0 where
  pub filename : String
  pub sha256 : String
  pub size_bytes : ℕ
  pub step_schema : Option String
  pub originating_system : Option String

-- What the parser's child returns.
pub record Parsed : Type 0 where
  pub declared_length_unit : Option String
  pub parser_version : String

pub record Rejection : Type 0 where
  pub code : ErrorCode
  pub stage : String
  pub message : String
  pub retryable : Bool

-- `X` is what the extractor's child returns: geometry, validation, artifacts, features.
pub record Manifest (X : Type 0) : Type 0 where
  pub sample_id : String
  pub status : SampleStatus
  pub filename : String
  pub sha256 : String
  pub size_bytes : ℕ
  pub original_units : Option String
  pub step_schema : Option String
  pub originating_system : Option String
  pub parser_version : String
  pub configuration_hash : String
  pub processed_at : String
  pub content : Option X
  pub rejection : Option Rejection
  pub source_key : Option Path_

-- A call that returns, raises `PipelineError`, or raises anything else.
pub data Run {ℓ} (A : Type ℓ) : Type ℓ where
  returned : A → Run A
  failed : PipelineError → Run A
  crashed : Run A

-- The extractor's child reports stages while it writes into the staging directory.
pub record Extraction (S X : Type 0) : Type 0 where
  pub stages : List String
  pub store : S
  pub result : Run X

pub record Env (B X : Type 0) (st : ArtifactStore B) : Type 0 where
  pub hash_bytes : B → String
  pub hash_text : String → String
  pub size_of : B → ℕ
  pub code_text : ErrorCode → String
  pub inspect_upload : String → B → Run IntakeResult
  pub parse : B → Run Parsed
  pub extract : B → Path_ → st.State → Extraction st.State X
  pub is_valid : Manifest X → Bool
  pub canonical_json : B
  pub encode : Manifest X → B
  pub decode : B → Option (Manifest X)
  pub config_hash : String
  pub pipeline_version : String
  pub schema_version : String
  -- The text form of a manifest can be read back.
  pub decode-encode : (m : Manifest X) → decode (encode m) ≡ some m
  -- The extractor's child writes into its directory alone.
  pub extract_inside :
      (b : B) (p j : Path_) (s : st.State)
      → is_under p j ≡ false
      → st.get_bytes (extract b p s).store j ≡ st.get_bytes s j
  pub extract_elsewhere :
      (b : B) (p q : Path_) (s : st.State)
      → is_under p q ≡ false
      → is_under q p ≡ false
      → st.exists (extract b p s).store q ≡ st.exists s q

-- The new texts of a call: the time of processing, the suffix of the staging key, a time stamp.
pub record Fresh : Type 0 where
  pub processed_at : String
  pub suffix : String
  pub stamp : String

-- The characters of a text up to a number, `t[:n]`.
unfoldable pub prefix : ℕ → String → String
prefix zero t = ""
prefix (suc n) String.[] = ""
prefix (suc n) (String.◌∷◌ c t) = String.◌∷◌ c (prefix n t)

unfoldable pub source_key : String → Path_
unfolding prefix
source_key sha = "sources" ∷ prefix 2 sha ∷ append sha ".step" ∷ []

abbrev pub sample_dir : String → Path_
sample_dir sample_id = "samples" ∷ sample_id ∷ []

unfoldable pub manifest_key : String → Path_
manifest_key sample_id = "samples" ∷ sample_id ∷ "manifest.json" ∷ []

unfoldable pub staging_key : String → String → Path_
staging_key sample_id suffix = "staging" ∷ append sample_id (append "-" suffix) ∷ []

-- ENVIRONMENT_SENSITIVE_CODES
unfoldable pub is_environment_sensitive : ErrorCode → Bool
is_environment_sensitive parser_timeout = true
is_environment_sensitive processing_timeout = true
is_environment_sensitive child_crashed = true
is_environment_sensitive _ = false

unfoldable pub status_for : Outcome → SampleStatus
status_for Outcome.rejected = rejected
status_for Outcome.quarantined = quarantined
status_for Outcome.timed_out = quarantined
status_for _ = failed

abbrev pub outcome_text : Outcome → String
outcome_text Outcome.rejected = "rejected"
outcome_text Outcome.quarantined = "quarantined"
outcome_text Outcome.failed_terminal = "failed_terminal"
outcome_text Outcome.failed_retryable = "failed_retryable"
outcome_text Outcome.timed_out = "timed_out"
