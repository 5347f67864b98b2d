-- ===== src/Ingestion.antt =====
-- `inspect_upload` of cad2ml/ingestion/intake.py. Bytes, digests, regular expressions and the text functions of Python
-- are not part of the repository: `Contents` is what the checks use of them.
pub mod Accepts
use cad2ml.Prelude.{
  ℕ, Bool, true, false, not, List, Option, none, some, String, length, [], ◌∷◌, str_eq, leb, ◌-◌,
  ◌&&◌, if◌then◌else◌, contains, ltb, ◌==◌,
}
use cad2ml.Errors.{
  PipelineError, ErrorCode, empty_file, file_too_large, unsupported_extension, not_step_content,
}
use cad2ml.Pipeline.{IntakeResult, prefix}
use Prim.Native.String.{◌++◌ as join_text}

pub record Contents : Type 1 where
  pub Data : Type 0
  pub size : Data → ℕ
  pub sha256_bytes : Data → String
  -- `data.lstrip(b"\xef\xbb\xbf \t\r\n").startswith(STEP_MAGIC)`
  pub starts_as_step : Data → Bool
  -- The group that the pattern of FILE_SCHEMA finds in the head, and the quoted strings of FILE_NAME.
  pub schema_group : Data → Option String
  pub name_strings : Data → Option (List String)
  pub strip : String → String
  -- `PurePath(name.replace("\\", "/")).name`, the ASCII part of the normal form, `_SAFE.sub("_", t)` and `t.strip("._")`.
  pub base_name : String → String
  pub ascii_part : String → String
  pub safe_part : String → String
  pub strip_marks : String → String
  pub len : String → ℕ
  -- `t.rpartition(".")`
  pub rpartition : String → String × (String × String)
  pub has_dot : String → Bool
  pub after_last_dot : String → String
  pub lower : String → String

pub record IngestionConfig : Type 0 where
  pub max_file_bytes : ℕ
  pub allowed_extensions : List String

pub data Inspection : Type 0 where
  accepted : IntakeResult → Inspection
  refused : PipelineError → Inspection

module _ (b : Contents) where
  -- `t or None`
  abbrev pub or_none : String → Option String
  or_none t = if str_eq t "" then none else some t

  abbrev pub header_field : Option String → Option String
  header_field none = none
  header_field (some t) = or_none (prefix 200 (b.strip t))

  -- `strings[-2]`
  abbrev pub second_last : List String → String
  second_last [] = ""
  second_last (x ∷ []) = x
  second_last (x ∷ (y ∷ [])) = x
  second_last (x ∷ (y ∷ (z ∷ zs))) = second_last (y ∷ (z ∷ zs))

  abbrev pub origin_of : Option (List String) → Option String
  origin_of none = none
  origin_of (some strings) =
      if leb 6 (length strings) then or_none (prefix 200 (second_last strings)) else none

  abbrev pub or_unnamed : String → String
  or_unnamed t = if str_eq t "" then "unnamed" else t

  -- A name that is too long keeps a short extension; `max_len` is 128.
  abbrev pub shortened : ℕ → String → String
  shortened max_len base =
      let (stem, (dot, ext)) = b.rpartition base in
      if not (str_eq dot "") && leb (b.len ext) 8
      then join_text (prefix (max_len - b.len ext - 1) stem) (join_text dot ext)
      else prefix max_len base

  unfoldable pub sanitize_filename : String → String
  sanitize_filename name =
      let base : String =
        or_unnamed (b.strip_marks (b.safe_part (b.ascii_part (b.base_name name)))) in
      if ltb 128 (b.len base) then shortened 128 base else base

  abbrev pub extension_of : String → String
  extension_of safe = if b.has_dot safe then join_text "." (b.lower (b.after_last_dot safe)) else ""

  abbrev pub intake_error : ErrorCode → String → Inspection
  intake_error code message = refused (record { code = code; message = message; stage = "intake" })

  -- The texts of the messages are shortened to their fixed part.
  unfoldable pub inspect_upload : String → b.Data → IngestionConfig → Inspection
  inspect_upload filename data_ cfg =
      let safe : String = sanitize_filename filename in
      if b.size data_ == 0
      then intake_error empty_file "uploaded file is empty"
      else if ltb cfg.max_file_bytes (b.size data_)
      then intake_error file_too_large "too many bytes"
      else if not (contains cfg.allowed_extensions (extension_of safe))
      then intake_error unsupported_extension "extension not allowed"
      else if not (b.starts_as_step data_)
      then intake_error not_step_content "missing ISO-10303-21 header"
      else accepted (record {
        filename = safe;
        sha256 = b.sha256_bytes data_;
        size_bytes = b.size data_;
        step_schema = header_field (b.schema_group data_);
        originating_system = origin_of (b.name_strings data_);
      })
