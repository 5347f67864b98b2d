-- ===== src/Pipeline/Reuse.antt =====
-- Idempotency of cad2ml/pipeline.py: an identical upload gets the manifest that the first one got.
use cad2ml.Prelude.{
  ℕ, Bool, true, false, not, ◌&&◌, ◌≡◌, refl, ◌∙◌, [], ◌∷◌, ◌++◌, Option, none, some, String,
  Bool-cases, inl, inr,
}
use cad2ml.Errors.{PipelineError, error_codes}
use cad2ml.Storage.{ArtifactStore}
use cad2ml.Storage.Paths.{Path_, same_path_refl, is_under, is_under-append, rebase}
use cad2ml.Pipeline.{
  IntakeResult, Parsed, Manifest, Run, returned, failed, crashed, Extraction, Env, Fresh,
  manifest_key, staging_key, sample_dir, is_environment_sensitive, source_key,
}
use cad2ml.Pipeline.Process.{
  Site, emit, clean, load_manifest, file_failure, finalize_failure, completed_manifest,
  failure_manifest, supersede, publish, extract_sample, attempt, recover, store_source, process_new,
  reuse_or_process, process_known, process_source, compute_sample_id,
}
use cad2ml.Pipeline.Unchanged.{clean-Same}

-- A manifest that stands for its upload: completed, or rejected for a reason that lies in the upload.
abbrev pub is_final : {X : Type 0} → Manifest X → Bool
is_final m = elim m.rejection [
  | none ↦ true
  | some r ↦ not (is_environment_sensitive r.code) && not (error_codes r.code).retryable
]

module _ {B X : Type 0} (st : ArtifactStore B) (env : Env B X st) (fresh : Fresh) where
  abbrev pub Stored : String → Manifest X → st.State → Type 0
  Stored id m s = st.get_bytes s (manifest_key id) ≡ some (env.encode m)

  pub load-Stored :
      (id : String) (m : Manifest X) (s : st.State)
      → Stored id m s
      → load_manifest st env fresh s id ≡ returned (some m)
  unfolding load_manifest
  load-Stored id m s h =
      rw
        (st.exists_file (manifest_key id) s (env.encode m) h, h, env.decode-encode m, load_manifest)
        refl

  pub clean-Stored :
      (p : Path_) (id : String) (m : Manifest X) (w : Site st)
      → is_under p (manifest_key id) ≡ false
      → Stored id m w.store
      → Stored id m (clean st p w).store
  clean-Stored p id m w a h = clean-Same st env fresh (manifest_key id) p w a ∙ h

  -- A final failure is filed under the key of the sample's manifest.
  file_failure-Stored :
      (e : PipelineError) (id : String) (m : Manifest X) (w : Site st)
      → (not (is_environment_sensitive e.code) && not (error_codes e.code).retryable) ≡ true
      → Stored id m (file_failure st env fresh e id m w).store
  unfolding file_failure
  file_failure-Stored e id m w h = elim (Bool-cases (is_environment_sensitive e.code)) [
    | inl q ↦ cc (rw q at h)
    | inr q ↦ elim (Bool-cases (not (error_codes e.code).retryable)) [
      | inr k ↦ cc (rw (q, k) at h)
      | inl k ↦
          rw (q, k, file_failure)
            (st.get-put (manifest_key id) (manifest_key id) (env.encode m) w.store
              ∙ rw (same_path_refl (manifest_key id)) refl)
    ]
  ]

  -- A sample that is new in the store is published with its manifest.
  pub publish-Stored :
      (id : String) (m : Manifest X) (w : Site st)
      → st.exists w.store (sample_dir id) ≡ false
      → (w' : Site st) × (publish st env fresh true id m w ≡ (w', returned m))
        × Stored id m w'.store
  unfolding publish supersede staging_key manifest_key is_under rebase
  publish-Stored id m w absent_ =
      let p : Path_ = staging_key id fresh.suffix in
      let s₀ : st.State = st.put_bytes (p ++ "config.json" ∷ []) env.canonical_json w.store in
      let s₁ : st.State = st.put_bytes (p ++ "manifest.json" ∷ []) (env.encode m) s₀ in
      let staged : st.get_bytes s₁ (p ++ "manifest.json" ∷ []) ≡ some (env.encode m) =
        st.get-put (p ++ "manifest.json" ∷ []) (p ++ "manifest.json" ∷ []) (env.encode m) s₀
        ∙ rw (same_path_refl (p ++ "manifest.json" ∷ [])) refl in
      let still : st.exists s₁ (sample_dir id) ≡ false =
        st.exists-put (p ++ "manifest.json" ∷ []) (sample_dir id) (env.encode m) s₀ refl
        ∙ st.exists-put (p ++ "config.json" ∷ []) (sample_dir id) env.canonical_json w.store refl
        ∙ absent_ in
      let (s₂, r, gone, files) =
        st.promote_moved p (sample_dir id) s₁ still
          (st.exists_under p (p ++ "manifest.json" ∷ []) s₁
            (is_under-append p ("manifest.json" ∷ []))
            (st.exists_file (p ++ "manifest.json" ∷ []) s₁ (env.encode m) staged))
          refl refl in
      (
        record { store = s₂; stages = w.stages ++ "completed" ∷ [] },
        rw (r, publish) refl,
        files (manifest_key id)
            ∙ rw (is_under-append (sample_dir id) ("manifest.json" ∷ [])) staged,
      )

  -- A run that returns a final manifest has stored it.
  abbrev Stands : String → Site st × Run (Manifest X) → Type 0
  Stands id (w, returned m) = is_final m ≡ true → Stored id m w.store
  Stands id (w, failed e) = Unit
  Stands id (w, crashed) = Unit

  extract_sample-Stands :
      (id : String) (b : B) (i : IntakeResult) (parsed : Parsed) (w : Site st)
      → st.exists w.store (sample_dir id) ≡ false
      → Stands id (extract_sample st env fresh true id b i parsed w)
  unfolding extract_sample staging_key is_under
  extract_sample-Stands id b i parsed w absent_ = go x.result refl
    where
      x : Extraction st.State X
      x = env.extract b (staging_key id fresh.suffix) w.store

      go : (r : Run X) → x.result ≡ r → Stands id (extract_sample st env fresh true id b i parsed w)
      go crashed q = rw (q, extract_sample) tt
      go (failed e) q = rw (q, extract_sample) tt
      go (returned c) q =
          elim (Bool-cases (env.is_valid (completed_manifest st env fresh id i parsed c))) [
            | inr h ↦ rw (q, h, extract_sample) tt
            | inl h ↦
                let (w', r, stored) =
                  publish-Stored id (completed_manifest st env fresh id i parsed c)
                    (record { store = x.store; stages = w.stages ++ x.stages })
                    (env.extract_elsewhere b (staging_key id fresh.suffix) (sample_dir id) w.store
                        refl refl
                      ∙ absent_) in
                rw (q, h, r, extract_sample) (λ final. stored)
          ]

  attempt-Stands :
      (id : String) (b : B) (i : IntakeResult) (w : Site st)
      → st.exists w.store (sample_dir id) ≡ false
      → Stands id (attempt st env fresh true id b i w)
  unfolding attempt
  attempt-Stands id b i w absent_ = go (env.parse b) refl
    where
      go : (r : Run Parsed) → env.parse b ≡ r → Stands id (attempt st env fresh true id b i w)
      go crashed q = rw (q, attempt) tt
      go (failed e) q = rw (q, attempt) tt
      go (returned parsed) q =
          rw (q, attempt) (extract_sample-Stands id b i parsed (emit st "parsing" w) absent_)

  finalize_failure-Stands :
      (e : PipelineError) (id filename sha : String) (size : ℕ) (i : Option IntakeResult)
      (w : Site st)
      → Stands id (finalize_failure st env fresh e id filename sha size i w)
  unfolding finalize_failure failure_manifest
  finalize_failure-Stands e id filename sha size i w = λ final. file_failure-Stored e id _ w final

  process_new-Stands :
      (id : String) (b : B) (i : IntakeResult) (w : Site st)
      → st.exists w.store (sample_dir id) ≡ false
      → Stands id (process_new st env fresh true id b i w)
  unfolding process_new recover store_source source_key is_under staging_key manifest_key
  process_new-Stands id b i w absent_ =
      cleaned (recover st env fresh id i (attempt st env fresh true id b i w₁))
        (recovered _ (attempt-Stands id b i w₁ still))
    where
      w₁ : Site st
      w₁ = emit st "validated" (store_source st env fresh b i w)

      still : st.exists w₁.store (sample_dir id) ≡ false
      still = elim (Bool-cases (st.exists w.store (source_key i.sha256))) [
        | inl h ↦ rw (h, store_source) absent_
        | inr h ↦
            rw (h, store_source)
              (st.exists-put (source_key i.sha256) (sample_dir id) b w.store refl ∙ absent_)
      ]

      recovered :
          (r : Site st × Run (Manifest X)) → Stands id r → Stands id (recover st env fresh id i r)
      recovered (v, returned m) h = h
      recovered (v, crashed) h = h
      recovered (v, failed e) h = finalize_failure-Stands e id _ _ _ (some i) _

      cleaned :
          (r : Site st × Run (Manifest X))
          → Stands id r
          → Stands id (clean st (staging_key id fresh.suffix) r.0, r.1)
      cleaned (v, returned m) h =
          λ final. clean-Stored (staging_key id fresh.suffix) id m v refl (h final)
      cleaned (v, crashed) h = tt
      cleaned (v, failed e) h = tt

  pub load-absent :
      (id : String) (s : st.State)
      → st.exists s (sample_dir id) ≡ false
      → load_manifest st env fresh s id ≡ returned none
  unfolding load_manifest manifest_key
  load-absent id s absent_ = elim (Bool-cases (st.exists s (manifest_key id))) [
    | inr h ↦ rw (h, load_manifest) refl
    | inl h ↦ cc (
        st.exists_under (sample_dir id) (manifest_key id) s
          (is_under-append (sample_dir id) ("manifest.json" ∷ [])) h)
  ]

  module _ (filename : String) (b : B) (i : IntakeResult)
      (accepted : env.inspect_upload filename b ≡ returned i) where
    process_source-Stands :
        (w : Site st)
        → st.exists w.store (sample_dir (compute_sample_id st env fresh i.sha256)) ≡ false
        → Stands
            (compute_sample_id st env fresh i.sha256)
            (process_source st env fresh true filename b w)
    unfolding process_source process_known reuse_or_process
    process_source-Stands w absent_ =
        rw (accepted, process_source, load-absent _ w.store absent_)
          (process_new-Stands (compute_sample_id st env fresh i.sha256) b i w absent_)

    process_source-reused :
        (w : Site st) (m : Manifest X)
        → Stored (compute_sample_id st env fresh i.sha256) m w.store
        → process_source st env fresh true filename b w ≡ (emit st "reused" w, returned m)
    unfolding process_source process_known reuse_or_process
    process_source-reused w m stored =
        rw
          (
            accepted,
            process_source,
            load-Stored (compute_sample_id st env fresh i.sha256) m w.store stored,
          )
          refl

-- When an upload that the intake accepts, of a sample that is new in the store, returns a manifest
-- that is completed, or rejected for a reason that neither depends on the environment nor may be
-- retried, the same upload after it returns the same manifest and leaves the store as it is.
pub process_source_idempotent :
    {B X : Type 0} (st : ArtifactStore B) (env : Env B X st) (fresh fresh' : Fresh)
    (filename : String) (b : B) (i : IntakeResult) (w w' : Site st) (m : Manifest X)
    → env.inspect_upload filename b ≡ returned i
    → st.exists w.store (sample_dir (compute_sample_id st env fresh i.sha256)) ≡ false
    → process_source st env fresh true filename b w ≡ (w', returned m)
    → is_final m ≡ true
    → process_source st env fresh' true filename b w' ≡ (emit st "reused" w', returned m)
unfolding compute_sample_id
process_source_idempotent st env fresh fresh' filename b i w w' m accepted absent_ first_ final =
    process_source-reused st env fresh' filename b i accepted w' m (
      let stands =
        rw first_ at (process_source-Stands st env fresh filename b i accepted w absent_) in
      stands final)
