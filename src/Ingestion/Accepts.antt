-- ===== src/Ingestion/Accepts.antt =====
-- What the intake of cad2ml/ingestion/intake.py accepts.
use cad2ml.Prelude.{◌≡◌, ◌≤◌, ◌↔◌, refl, true, String, contains, arith}
use cad2ml.Pipeline.{IntakeResult}
use cad2ml.Ingestion.{
  Contents, IngestionConfig, accepted, inspect_upload, extension_of, header_field, origin_of,
  sanitize_filename,
}

module _ (b : Contents) (filename : String) (data_ : b.Data) (cfg : IngestionConfig) where
  abbrev pub IsAcceptable : Type 0
  IsAcceptable =
      (1 ≤ b.size data_)
      × ((b.size data_ ≤ cfg.max_file_bytes)
          × ((contains cfg.allowed_extensions (extension_of b (sanitize_filename b filename))
                ≡ true)
              × (b.starts_as_step data_ ≡ true)))

  abbrev pub IsAccepted : Type 0
  IsAccepted =
      (r : IntakeResult) × ((inspect_upload b filename data_ cfg ≡ accepted r)
        × ((r.sha256 ≡ b.sha256_bytes data_) × (r.size_bytes ≡ b.size data_)))

  -- An upload is accepted, with the digest and the size of its bytes, just when it has a byte, is within the limit, has an
  -- allowed extension and starts as STEP does.
  pub inspect_upload-accepts : IsAccepted ↔ IsAcceptable
  unfolding inspect_upload
  inspect_upload-accepts = (
    λ p. let e : inspect_upload b filename data_ cfg ≡ accepted p.0 = p.1.0 in ground arith,
    λ q. (
      record {
        filename = sanitize_filename b filename;
        sha256 = b.sha256_bytes data_;
        size_bytes = b.size data_;
        step_schema = header_field b (b.schema_group data_);
        originating_system = origin_of b (b.name_strings data_);
      },
      (ground arith, (refl, refl)),
    ),
  )
