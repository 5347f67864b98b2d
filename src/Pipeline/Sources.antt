-- ===== src/Pipeline/Sources.antt =====
-- The sources that cad2ml/pipeline.py stores are never modified.
use cad2ml.Prelude.{
  Bool, true, false, not, ◌≡◌, refl, ◌∙◌, [], ◌∷◌, ◌++◌, Option, none, some, String, Bool-cases,
  Option-cases, inl, inr,
}
use cad2ml.Errors.{PipelineError, error_codes}
use cad2ml.Storage.{ArtifactStore}
use cad2ml.Storage.Paths.{Path_, same_path, is_under, same_path_refl, same_path→eq}
use cad2ml.Pipeline.{
  IntakeResult, Parsed, Manifest, Run, returned, failed, crashed, Extraction, Env, Fresh,
  source_key, manifest_key, staging_key, sample_dir, is_environment_sensitive,
}
use cad2ml.Pipeline.Process.{
  Site, file_failure, finalize_failure, supersede, publish, extract_sample, attempt, recover,
  store_source, process_new, process_known, process_source, completed_manifest, load_manifest, emit,
  reuse_or_process,
}
use cad2ml.Pipeline.Unchanged.{
  Same, put-Same, delete_prefix-Same, clean-Same, promote-Same, supersede-Same, staged_exists,
}

module _ {B X : Type 0} (st : ArtifactStore B) (env : Env B X st) (fresh : Fresh)
    (rest : Path_) where
  abbrev Kept : st.State → st.State → Type 0
  Kept = Same st env fresh ("sources" ∷ rest)

  file_failure-Same :
      (e : PipelineError) (id : String) (m : Manifest X) (w : Site st)
      → Kept w.store (file_failure st env fresh e id m w).store
  unfolding file_failure manifest_key same_path
  file_failure-Same e id m w = elim (Bool-cases (is_environment_sensitive e.code)) [
    | inl h ↦ rw (h, file_failure) (put-Same st env fresh _ _ (env.encode m) w.store refl)
    | inr h ↦ elim (Bool-cases (not (error_codes e.code).retryable)) [
      | inl k ↦
          rw (h, k, file_failure)
            (put-Same st env fresh _ (manifest_key id) (env.encode m) w.store refl)
      | inr k ↦ rw (h, k, file_failure) refl
    ]
  ]

  staged_files :
      (p : Path_) (b c : B) (s : st.State)
      → same_path (p ++ "config.json" ∷ []) ("sources" ∷ rest) ≡ false
      → same_path (p ++ "manifest.json" ∷ []) ("sources" ∷ rest) ≡ false
      → Kept s
          (st.put_bytes (p ++ "manifest.json" ∷ []) b (st.put_bytes (p ++ "config.json" ∷ []) c s))
  staged_files p b c s h k =
      put-Same st env fresh _ (p ++ "manifest.json" ∷ []) b
        (st.put_bytes (p ++ "config.json" ∷ []) c s) k
      ∙ put-Same st env fresh _ (p ++ "config.json" ∷ []) c s h

  publish-Same :
      (reuse : Bool) (id : String) (m : Manifest X) (w : Site st)
      → Kept w.store (publish st env fresh reuse id m w).0.store
  unfolding publish staging_key same_path is_under
  publish-Same reuse id m w = go (supersede st env fresh reuse id staged) refl
    where
      p : Path_
      p = staging_key id fresh.suffix

      staged : Site st
      staged = record w {
        store =
            st.put_bytes (p ++ "manifest.json" ∷ []) (env.encode m)
              (st.put_bytes (p ++ "config.json" ∷ []) env.canonical_json w.store);
      }

      kept : Kept w.store staged.store
      kept = staged_files p (env.encode m) env.canonical_json w.store refl refl

      there :
          (w' : Site st)
          → supersede st env fresh reuse id staged ≡ some w'
          → st.exists w'.store p ≡ true
      there w' q = staged_exists st env fresh p (env.encode m) w'.store (
          supersede-Same st env fresh (p ++ "manifest.json" ∷ []) reuse id staged w' refl
            (λ x. refl) q
          ∙ st.get-put (p ++ "manifest.json" ∷ []) (p ++ "manifest.json" ∷ []) (env.encode m) _
          ∙ rw (same_path_refl (p ++ "manifest.json" ∷ [])) refl)

      go :
          (o : Option (Site st))
          → supersede st env fresh reuse id staged ≡ o
          → Kept w.store (publish st env fresh reuse id m w).0.store
      go none q = rw (q, publish) kept
      go (some w') q = elim (Option-cases (st.promote_prefix p (sample_dir id) w'.store)) [
        | inl n ↦
            rw (q, publish, n)
              (supersede-Same st env fresh _ reuse id staged w' refl (λ x. refl) q ∙ kept)
        | inr (s, n) ↦
            rw (q, publish, n)
              (promote-Same st env fresh _ p (sample_dir id) w'.store s refl refl refl refl
                  (there w' q) n
                ∙ supersede-Same st env fresh _ reuse id staged w' refl (λ x. refl) q
                ∙ kept)
      ]

  extract_sample-Same :
      (reuse : Bool) (id : String) (b : B) (i : IntakeResult) (parsed : Parsed) (w : Site st)
      → Kept w.store (extract_sample st env fresh reuse id b i parsed w).0.store
  unfolding extract_sample staging_key is_under
  extract_sample-Same reuse id b i parsed w = go x.result refl
    where
      x : Extraction st.State X
      x = env.extract b (staging_key id fresh.suffix) w.store

      written : Kept w.store x.store
      written = env.extract_inside b (staging_key id fresh.suffix) ("sources" ∷ rest) w.store refl

      go :
          (r : Run X)
          → x.result ≡ r
          → Kept w.store (extract_sample st env fresh reuse id b i parsed w).0.store
      go crashed q = rw (q, extract_sample) written
      go (failed e) q = rw (q, extract_sample) written
      go (returned c) q =
          elim (Bool-cases (env.is_valid (completed_manifest st env fresh id i parsed c))) [
            | inl h ↦
                rw (q, h, extract_sample)
                  (publish-Same reuse id (completed_manifest st env fresh id i parsed c)
                      (record { store = x.store; stages = w.stages ++ x.stages })
                    ∙ written)
            | inr h ↦ rw (q, h, extract_sample) written
          ]

  attempt-Same :
      (reuse : Bool) (id : String) (b : B) (i : IntakeResult) (w : Site st)
      → Kept w.store (attempt st env fresh reuse id b i w).0.store
  unfolding attempt
  attempt-Same reuse id b i w = go (env.parse b) refl
    where
      go :
          (r : Run Parsed)
          → env.parse b ≡ r
          → Kept w.store (attempt st env fresh reuse id b i w).0.store
      go crashed q = rw (q, attempt) refl
      go (failed e) q = rw (q, attempt) refl
      go (returned parsed) q =
          rw (q, attempt) (extract_sample-Same reuse id b i parsed (emit st "parsing" w))

  recover-Same :
      (id : String) (i : IntakeResult) (w : Site st) (r : Run (Manifest X))
      → Kept w.store (recover st env fresh id i (w, r)).0.store
  unfolding recover finalize_failure staging_key is_under
  recover-Same id i w (returned m) = refl
  recover-Same id i w crashed = refl
  recover-Same id i w (failed e) =
      file_failure-Same e id _
        (record w { store = st.delete_prefix (staging_key id fresh.suffix) w.store })
      ∙ delete_prefix-Same st env fresh _ (staging_key id fresh.suffix) w.store refl

  store_source-Same :
      (b b' : B) (i : IntakeResult) (w : Site st)
      → st.get_bytes w.store ("sources" ∷ rest) ≡ some b'
      → Kept w.store (store_source st env fresh b i w).store
  unfolding store_source
  store_source-Same b b' i w h = elim (Bool-cases (st.exists w.store (source_key i.sha256))) [
    | inl q ↦ rw (q, store_source) refl
    | inr q ↦ elim (Bool-cases (same_path (source_key i.sha256) ("sources" ∷ rest))) [
      | inl e ↦
          let k = same_path→eq (source_key i.sha256) ("sources" ∷ rest) e in
          cc (st.exists_file ("sources" ∷ rest) w.store b' h, q, k)
      | inr e ↦ rw (q, store_source) (put-Same st env fresh _ (source_key i.sha256) b w.store e)
    ]
  ]

  process_new-Same :
      (reuse : Bool) (id : String) (b b' : B) (i : IntakeResult) (w : Site st)
      → st.get_bytes w.store ("sources" ∷ rest) ≡ some b'
      → Kept w.store (process_new st env fresh reuse id b i w).0.store
  unfolding process_new staging_key is_under
  process_new-Same reuse id b b' i w h =
      let w₁ : Site st = emit st "validated" (store_source st env fresh b i w) in
      let a : Site st × Run (Manifest X) = attempt st env fresh reuse id b i w₁ in
      clean-Same st env fresh _ (staging_key id fresh.suffix) (recover st env fresh id i a).0 refl
      ∙ recover-Same id i a.0 a.1
      ∙ attempt-Same reuse id b i w₁
      ∙ store_source-Same b b' i w h

  module _ (b b' : B) (w : Site st) (h : st.get_bytes w.store ("sources" ∷ rest) ≡ some b') where
    reuse_or_process-Same :
        (r : Run (Option (Manifest X))) (reuse : Bool) (id : String) (i : IntakeResult)
        → Kept w.store (reuse_or_process st env fresh r reuse id b i w).0.store
    unfolding reuse_or_process
    reuse_or_process-Same crashed reuse id i = refl
    reuse_or_process-Same (failed e) reuse id i = refl
    reuse_or_process-Same (returned (some m)) reuse id i = refl
    reuse_or_process-Same (returned none) reuse id i = process_new-Same reuse id b b' i w h

    process_known-Same :
        (reuse : Bool) (id : String) (i : IntakeResult)
        → Kept w.store (process_known st env fresh reuse id b i w).0.store
    unfolding process_known
    process_known-Same true id i =
        reuse_or_process-Same (load_manifest st env fresh w.store id) true id i
    process_known-Same false id i = process_new-Same false id b b' i w h

    -- Source bytes that the store holds are never modified, nor removed, by any run of the pipeline:
    -- whatever is uploaded, whether it is reused, reprocessed, rejected, or ends in an exception.
    pub sources_kept :
        (reuse : Bool) (filename : String)
        → st.get_bytes (process_source st env fresh reuse filename b w).0.store ("sources" ∷ rest)
          ≡ some b'
    unfolding process_source finalize_failure
    sources_kept reuse filename = go (env.inspect_upload filename b) refl ∙ h
      where
        go :
            (r : Run IntakeResult)
            → env.inspect_upload filename b ≡ r
            → Kept w.store (process_source st env fresh reuse filename b w).0.store
        go crashed q = rw (q, process_source) refl
        go (failed e) q = rw (q, process_source) (file_failure-Same e _ _ w)
        go (returned i) q = rw (q, process_source) (process_known-Same reuse _ i)
