-- ===== src/Examples/Pipeline.antt =====
-- Runs of cad2ml/pipeline.py over a store of files.
use cad2ml.Prelude.{
  ℕ, ◌≡◌, refl, true, false, [], ◌∷◌, ◌++◌, Option, none, some, String, Bool-cases, inl, inr,
}
use cad2ml.Storage.Local.{Files, local_store, lookup}
use cad2ml.Storage.Paths.{Path_, same_path, same_path→eq, is_under, is_under-append, is_under_apart}
use cad2ml.Pipeline.{
  Manifest, IntakeResult, returned, Env, Fresh, completed, staging_key, source_key, manifest_key,
}
use cad2ml.Pipeline.Process.{
  Site, emit, process_source, process_known, reuse_or_process, load_manifest, process_new, recover,
  clean, attempt, extract_sample, publish, store_source, compute_sample_id, completed_manifest,
}
use cad2ml.Pipeline.Sources.{sources_kept}
use cad2ml.Pipeline.Completes.{process_source_completes}
use cad2ml.Pipeline.Reuse.{process_source_idempotent}

data Blob : Type 0 where
  raw : String → Blob
  doc : Manifest ℕ → Blob

abbrev decode : Blob → Option (Manifest ℕ)
decode (raw t) = none
decode (doc m) = some m

abbrev hash : Blob → String
hash (raw t) = t
hash (doc m) = m.sample_id

-- The extractor writes one file.
abbrev written : Path_ → Files Blob → Files Blob
written p s = (p ++ "lineage.json" ∷ [], raw "lineage") ∷ s

written_inside :
    (p j : Path_) (s : Files Blob) → is_under p j ≡ false → lookup (written p s) j ≡ lookup s j
written_inside p j s h = elim (Bool-cases (same_path (p ++ "lineage.json" ∷ []) j)) [
  | inl q ↦
      cc (same_path→eq (p ++ "lineage.json" ∷ []) j q, is_under-append p ("lineage.json" ∷ []), h)
  | inr q ↦ rw q refl
]

abbrev intake : IntakeResult
intake = record {
  filename = "part.step";
  sha256 = "abc";
  size_bytes = 3;
  step_schema = none;
  originating_system = none;
}

abbrev env : Env Blob ℕ (local_store Blob)
env = record {
  hash_bytes = hash;
  hash_text = λ t. t;
  size_of = λ b. 3;
  code_text = λ c. "CODE";
  inspect_upload = λ f b. returned intake;
  parse = λ b. returned (record { declared_length_unit = some "mm"; parser_version = "1" });
  extract =
      λ b p s. record { stages = "extracting" ∷ []; store = written p s; result = returned 7 };
  is_valid = λ m. true;
  canonical_json = raw "config";
  encode = λ m. doc m;
  decode = decode;
  config_hash = "c";
  pipeline_version = "p";
  schema_version = "s";
  decode-encode = λ m. refl;
  extract_inside = λ b p j s h. written_inside p j s h;
  extract_elsewhere = λ b p q s h k. rw (is_under_apart q p ("lineage.json" ∷ []) k h) refl;
}

abbrev first_call : Fresh
first_call = record { processed_at = "t1"; suffix = "u1"; stamp = "s1" }

abbrev second_call : Fresh
second_call = record { processed_at = "t2"; suffix = "u2"; stamp = "s2" }

abbrev empty_site : Site (local_store Blob)
empty_site = record { store = []; stages = [] }

abbrev first_manifest : Manifest ℕ
first_manifest = record {
  sample_id = "s_abc|p|c|s";
  status = completed;
  filename = "part.step";
  sha256 = "abc";
  size_bytes = 3;
  original_units = some "mm";
  step_schema = none;
  originating_system = none;
  parser_version = "1";
  configuration_hash = "c";
  processed_at = "t1";
  content = some 7;
  rejection = none;
  source_key = some ("sources" ∷ "ab" ∷ "abc.step" ∷ []);
}

first_site : Site (local_store Blob)
first_site =
    (process_source (local_store Blob) env first_call true "part.step" (raw "abc") empty_site).0

process_source_idempotent_example :
    process_source (local_store Blob) env second_call true "part.step" (raw "abc") first_site
    ≡ (emit (local_store Blob) "reused" first_site, returned first_manifest)
unfolding process_source first_site process_known reuse_or_process load_manifest process_new recover
    clean attempt extract_sample publish is_under staging_key store_source source_key
    compute_sample_id completed_manifest
process_source_idempotent_example =
    process_source_idempotent (local_store Blob) env first_call second_call "part.step" (raw "abc")
      intake empty_site _ first_manifest refl refl refl refl

sources_kept_example :
    (local_store Blob).get_bytes
      (process_source (local_store Blob) env first_call true "part.step" (raw "abc") (record {
        store = ("sources" ∷ "ab" ∷ "abc.step" ∷ [], raw "abc") ∷ [];
        stages = [];
      })).0.store
      ("sources" ∷ "ab" ∷ "abc.step" ∷ [])
    ≡ some (raw "abc")
unfolding same_path
sources_kept_example =
    sources_kept (local_store Blob) env first_call ("ab" ∷ "abc.step" ∷ []) (raw "abc") (raw "abc")
      (record { store = ("sources" ∷ "ab" ∷ "abc.step" ∷ [], raw "abc") ∷ []; stages = [] }) refl
      true "part.step"

process_source_completes_example :
    (w' : Site (local_store Blob)) × (process_source
        (local_store Blob)
        env
        first_call
        true
        "part.step"
        (raw "abc")
        empty_site
      ≡ (w', returned first_manifest))
    × ((local_store Blob).get_bytes w'.store (manifest_key "s_abc|p|c|s")
        ≡ some (doc first_manifest))
    × ((local_store Blob).exists w'.store (staging_key "s_abc|p|c|s" "u1") ≡ false)
unfolding compute_sample_id completed_manifest source_key
process_source_completes_example =
    process_source_completes (local_store Blob) env first_call (raw "abc") intake
      (record { declared_length_unit = some "mm"; parser_version = "1" }) 7 "part.step" empty_site
      refl refl (λ s. refl) refl refl
