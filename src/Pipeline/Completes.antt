-- ===== src/Pipeline/Completes.antt =====
-- A run of cad2ml/pipeline.py in which the parser and the extractor succeed.
use cad2ml.Prelude.{true, false, ◌≡◌, refl, ◌∙◌, [], ◌∷◌, ◌++◌, some, String, Bool-cases, inl, inr}
use cad2ml.Storage.{ArtifactStore}
use cad2ml.Storage.Paths.{Path_, is_under}
use cad2ml.Pipeline.{
  IntakeResult, Parsed, returned, Env, Fresh, Extraction, staging_key, sample_dir, source_key,
  manifest_key,
}
use cad2ml.Pipeline.Process.{
  Site, emit, clean, completed_manifest, extract_sample, attempt, recover, store_source,
  process_new, reuse_or_process, process_known, process_source, compute_sample_id,
}
use cad2ml.Pipeline.Reuse.{Stored, publish-Stored, load-absent, clean-Stored}

module _ {B X : Type 0} (st : ArtifactStore B) (env : Env B X st) (fresh : Fresh) (b : B)
    (i : IntakeResult) (parsed : Parsed) (x : X) where
  clean-gone : (p : Path_) (w : Site st) → st.exists (clean st p w).store p ≡ false
  unfolding clean
  clean-gone p w = elim (Bool-cases (st.exists w.store p)) [
    | inl h ↦ rw (h, clean) (st.exists-delete p w.store)
    | inr h ↦ rw (h, clean) h
  ]

  store_source-absent :
      (id : String) (w : Site st)
      → st.exists w.store (sample_dir id) ≡ false
      → st.exists (store_source st env fresh b i w).store (sample_dir id) ≡ false
  unfolding store_source source_key is_under
  store_source-absent id w absent_ = elim (Bool-cases (st.exists w.store (source_key i.sha256))) [
    | inl h ↦ rw (h, store_source) absent_
    | inr h ↦
        rw (h, store_source)
          (st.exists-put (source_key i.sha256) (sample_dir id) b w.store refl ∙ absent_)
  ]

  module _ (id : String) (parses : env.parse b ≡ returned parsed)
      (extracts : (s : st.State)
        → (env.extract b (staging_key id fresh.suffix) s).result ≡ returned x)
      (valid : env.is_valid (completed_manifest st env fresh id i parsed x) ≡ true) where
    attempt-completes :
        (w : Site st)
        → st.exists w.store (sample_dir id) ≡ false
        → (w' : Site st) × (attempt st env fresh true id b i w
            ≡ (w', returned (completed_manifest st env fresh id i parsed x)))
          × Stored st env fresh id (completed_manifest st env fresh id i parsed x) w'.store
    unfolding attempt extract_sample staging_key is_under
    attempt-completes w absent_ =
        let e : Extraction st.State X = env.extract b (staging_key id fresh.suffix) w.store in
        let (w', r, stored) =
          publish-Stored st env fresh id (completed_manifest st env fresh id i parsed x)
            (record { store = e.store; stages = (w.stages ++ "parsing" ∷ []) ++ e.stages })
            (env.extract_elsewhere b (staging_key id fresh.suffix) (sample_dir id) w.store refl refl
              ∙ absent_) in
        (w', rw (parses, attempt, extracts w.store, valid, extract_sample) r, stored)

    process_new-completes :
        (w : Site st)
        → st.exists w.store (sample_dir id) ≡ false
        → (w' : Site st) × (process_new st env fresh true id b i w
            ≡ (w', returned (completed_manifest st env fresh id i parsed x)))
          × Stored st env fresh id (completed_manifest st env fresh id i parsed x) w'.store
          × (st.exists w'.store (staging_key id fresh.suffix) ≡ false)
    unfolding process_new recover staging_key manifest_key is_under
    process_new-completes w absent_ =
        let (w₁, r, stored) =
          attempt-completes (emit st "validated" (store_source st env fresh b i w))
            (store_source-absent id w absent_) in
        (
          clean st (staging_key id fresh.suffix) w₁,
          rw (r, process_new) refl,
          clean-Stored st env fresh (staging_key id fresh.suffix) id
              (completed_manifest st env fresh id i parsed x) w₁ refl stored,
          clean-gone (staging_key id fresh.suffix) w₁,
        )

  -- An upload of a new sample that the intake accepts, the parser parses and the extractor turns
  -- into a valid manifest returns that manifest; the store then holds it under the sample's key, and
  -- the staging directory is gone.
  pub process_source_completes :
      (filename : String) (w : Site st)
      → env.inspect_upload filename b ≡ returned i
      → env.parse b ≡ returned parsed
      → ((s : st.State)
          → (env.extract b
              (staging_key (compute_sample_id st env fresh i.sha256) fresh.suffix)
              s).result
            ≡ returned x)
      → env.is_valid
          (completed_manifest st env fresh (compute_sample_id st env fresh i.sha256) i parsed x)
        ≡ true
      → st.exists w.store (sample_dir (compute_sample_id st env fresh i.sha256)) ≡ false
      → let id = compute_sample_id st env fresh i.sha256 in
        let m = completed_manifest st env fresh id i parsed x in
        (w' : Site st) × (process_source st env fresh true filename b w ≡ (w', returned m))
        × (st.get_bytes w'.store (manifest_key id) ≡ some (env.encode m))
        × (st.exists w'.store (staging_key id fresh.suffix) ≡ false)
  unfolding process_source process_known reuse_or_process
  process_source_completes filename w accepted parses extracts valid absent_ =
      let id : String = compute_sample_id st env fresh i.sha256 in
      let (w', r, stored, gone) = process_new-completes id parses extracts valid w absent_ in
      (
        w',
        rw (accepted, process_source, load-absent st env fresh id w.store absent_) r,
        stored,
        gone,
      )
