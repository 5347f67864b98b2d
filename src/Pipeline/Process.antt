-- ===== src/Pipeline/Process.antt =====
-- `process_source` and `_finalize_failure` of cad2ml/pipeline.py as functions on the store and the
-- stages reported so far.
use cad2ml.Prelude.{
  ℕ, Bool, not, ◌&&◌, List, [], ◌∷◌, ◌++◌, Option, none, some, String, if◌then◌else◌,
}
use Prim.Native.String.{◌++◌ as append}
use cad2ml.Errors.{ErrorCode, PipelineError, error_codes}
use cad2ml.Storage.{ArtifactStore}
use cad2ml.Storage.Paths.{Path_}
use cad2ml.Pipeline.{
  completed, IntakeResult, Parsed, Manifest, Run, returned, failed, crashed, Extraction, Env, Fresh,
  prefix, source_key, sample_dir, manifest_key, staging_key, is_environment_sensitive, status_for,
  outcome_text,
}

module _ {B : Type 0} (st : ArtifactStore B) where
  pub record Site : Type 0 where
    pub store : st.State
    pub stages : List String

  abbrev pub emit : String → Site → Site
  emit stage w = record w { stages = w.stages ++ stage ∷ [] }

  abbrev pub put : Path_ → B → Site → Site
  put k b w = record w { store = st.put_bytes k b w.store }

  -- The `finally` clause: what is left of the staging directory goes.
  unfoldable pub clean : Path_ → Site → Site
  clean p w = if st.exists w.store p then record w { store = st.delete_prefix p w.store } else w

  module _ {X : Type 0} (env : Env B X st) (fresh : Fresh) where
    unfoldable pub compute_sample_id : String → String
    unfolding prefix
    compute_sample_id sha = append "s_" (
        prefix 24 (
          env.hash_text (
            append sha (
              append "|" (
                append env.pipeline_version
                  (append "|" (append env.config_hash (append "|" env.schema_version))))))))

    unfoldable pub load_manifest : st.State → String → Run (Option (Manifest X))
    unfolding manifest_key
    load_manifest s sample_id =
        if st.exists s (manifest_key sample_id)
        then (elim (st.get_bytes s (manifest_key sample_id)) [
          | none ↦ crashed
          | some b ↦ elim (env.decode b) [ none ↦ crashed | some m ↦ returned (some m) ]
        ])
        else returned none

    unfoldable pub failure_manifest :
        PipelineError → String → String → String → ℕ → Option IntakeResult → Manifest X
    failure_manifest e sample_id filename sha size intake = record {
      sample_id = sample_id;
      status = status_for (error_codes e.code).outcome;
      filename = filename;
      sha256 = sha;
      size_bytes = size;
      original_units = none;
      step_schema = elim intake [ none ↦ none | some i ↦ i.step_schema ];
      originating_system = elim intake [ none ↦ none | some i ↦ i.originating_system ];
      parser_version = "n/a";
      configuration_hash = env.config_hash;
      processed_at = fresh.processed_at;
      content = none;
      rejection = some (record {
        code = e.code;
        stage = e.stage;
        message = prefix 2000 e.message;
        retryable = (error_codes e.code).retryable;
      });
      source_key = elim intake [ none ↦ none | some i ↦ some (source_key sha) ];
    }

    abbrev pub audit_key : String → ErrorCode → Path_
    audit_key sample_id code =
        "quarantine"
        ∷ sample_id
        ∷ append fresh.stamp (append "-" (append (env.code_text code) ".json"))
        ∷ []

    -- Where the manifest of a failure goes: an audit record, the sample's manifest, or nowhere.
    unfoldable pub file_failure : PipelineError → String → Manifest X → Site → Site
    unfolding manifest_key is_environment_sensitive
    file_failure e sample_id m w =
        if is_environment_sensitive e.code
        then put (audit_key sample_id e.code) (env.encode m) w
        else if not (error_codes e.code).retryable
        then put (manifest_key sample_id) (env.encode m) w
        else w

    unfoldable pub finalize_failure :
        PipelineError
        → String
        → String
        → String
        → ℕ
        → Option IntakeResult
        → Site
        → Site × Run (Manifest X)
    finalize_failure e sample_id filename sha size intake w =
        let m : Manifest X = failure_manifest e sample_id filename sha size intake in
        (
          emit (outcome_text (error_codes e.code).outcome) (file_failure e sample_id m w),
          returned m,
        )

    unfoldable pub completed_manifest : String → IntakeResult → Parsed → X → Manifest X
    completed_manifest sample_id intake parsed x = record {
      sample_id = sample_id;
      status = completed;
      filename = intake.filename;
      sha256 = intake.sha256;
      size_bytes = intake.size_bytes;
      original_units = parsed.declared_length_unit;
      step_schema = intake.step_schema;
      originating_system = intake.originating_system;
      parser_version = parsed.parser_version;
      configuration_hash = env.config_hash;
      processed_at = fresh.processed_at;
      content = some x;
      rejection = none;
      source_key = some (source_key intake.sha256);
    }

    abbrev pub superseded_key : String → Path_
    superseded_key sample_id = "superseded" ∷ append sample_id (append "-" fresh.stamp) ∷ []

    -- An explicit reprocessing keeps the superseded sample; `none` where a rename raises.
    unfoldable pub supersede : Bool → String → Site → Option Site
    supersede reuse sample_id w =
        if not reuse && st.exists w.store (manifest_key sample_id)
        then (elim (st.promote_prefix (sample_dir sample_id) (superseded_key sample_id) w.store) [
          | none ↦ none
          | some s ↦ some (record w { store = s })
        ])
        else some w

    unfoldable pub publish : Bool → String → Manifest X → Site → Site × Run (Manifest X)
    unfolding supersede
    publish reuse sample_id m w =
        let staging : Path_ = staging_key sample_id fresh.suffix in
        let staged : Site =
          put (staging ++ "manifest.json" ∷ []) (env.encode m)
            (put (staging ++ "config.json" ∷ []) env.canonical_json w) in
        elim (supersede reuse sample_id staged) [
          | none ↦ (staged, crashed)
          | some w' ↦ elim (st.promote_prefix staging (sample_dir sample_id) w'.store) [
            | none ↦ (w', crashed)
            | some s ↦ (emit "completed" (record w' { store = s }), returned m)
          ]
        ]

    unfoldable pub extract_sample :
        Bool → String → B → IntakeResult → Parsed → Site → Site × Run (Manifest X)
    extract_sample reuse sample_id data_ intake parsed w =
        let x : Extraction st.State X =
          env.extract data_ (staging_key sample_id fresh.suffix) w.store in
        let w' : Site = record { store = x.store; stages = w.stages ++ x.stages } in
        elim x.result [
          | crashed ↦ (w', crashed)
          | failed e ↦ (w', failed e)
          | returned c ↦
              let m : Manifest X = completed_manifest sample_id intake parsed c in
              if env.is_valid m then publish reuse sample_id m w' else (w', crashed)
        ]

    -- The body of the `try`.
    unfoldable pub attempt : Bool → String → B → IntakeResult → Site → Site × Run (Manifest X)
    attempt reuse sample_id data_ intake w = elim (env.parse data_) [
      | crashed ↦ (emit "parsing" w, crashed)
      | failed e ↦ (emit "parsing" w, failed e)
      | returned parsed ↦ extract_sample reuse sample_id data_ intake parsed (emit "parsing" w)
    ]

    -- The `except PipelineError` clause.
    unfoldable pub recover :
        String → IntakeResult → Site × Run (Manifest X) → Site × Run (Manifest X)
    recover sample_id intake (w, returned m) = (w, returned m)
    recover sample_id intake (w, crashed) = (w, crashed)
    recover sample_id intake (w, failed e) =
        finalize_failure e sample_id intake.filename intake.sha256 intake.size_bytes (some intake)
          (record w { store = st.delete_prefix (staging_key sample_id fresh.suffix) w.store })

    unfoldable pub store_source : B → IntakeResult → Site → Site
    store_source data_ intake w =
        if st.exists w.store (source_key intake.sha256)
        then w
        else put (source_key intake.sha256) data_ w

    unfoldable pub process_new : Bool → String → B → IntakeResult → Site → Site × Run (Manifest X)
    process_new reuse sample_id data_ intake w =
        let (w', r) =
          recover sample_id intake (
            attempt reuse sample_id data_ intake
              (emit "validated" (store_source data_ intake w))) in
        (clean (staging_key sample_id fresh.suffix) w', r)

    unfoldable pub reuse_or_process :
        Run (Option (Manifest X))
        → Bool
        → String
        → B
        → IntakeResult
        → Site
        → Site × Run (Manifest X)
    reuse_or_process crashed reuse sample_id data_ intake w = (w, crashed)
    reuse_or_process (failed e) reuse sample_id data_ intake w = (w, failed e)
    reuse_or_process (returned (some m)) reuse sample_id data_ intake w =
        (emit "reused" w, returned m)
    reuse_or_process (returned none) reuse sample_id data_ intake w =
        process_new reuse sample_id data_ intake w

    unfoldable pub process_known : Bool → String → B → IntakeResult → Site → Site × Run (Manifest X)
    process_known reuse sample_id data_ intake w =
        if reuse
        then reuse_or_process (load_manifest w.store sample_id) reuse sample_id data_ intake w
        else process_new reuse sample_id data_ intake w

    unfoldable pub process_source : Bool → String → B → Site → Site × Run (Manifest X)
    process_source reuse filename data_ w = elim (env.inspect_upload filename data_) [
      | crashed ↦ (w, crashed)
      | failed e ↦
          let sha : String = env.hash_bytes data_ in
          finalize_failure e (compute_sample_id sha) filename sha (env.size_of data_) none w
      | returned intake ↦ process_known reuse (compute_sample_id intake.sha256) data_ intake w
    ]
