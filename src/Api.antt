-- ===== src/Api.antt =====
-- Handlers of apps/api/main.py over the job service, the store and the intake. A reply has a status; an HTTPException is a
-- refusal; an exception that nothing catches is a failure.
pub mod Replies
use cad2ml.Prelude.{
  ℕ, Bool, true, false, not, ◌&&◌, ◌||◌, List, [], ◌∷◌, ◌++◌, Option, none, some, String, str_eq,
  if◌then◌else◌, map, keep,
}
use Prim.Native.String.{◌++◌ as join_text}
use cad2ml.Errors.{PipelineError, ErrorCode, file_too_large}
use cad2ml.Jobs.Engine.{Engine}
use cad2ml.Jobs.Db.{
  Database, FileRow, JobRow, JobEventRow, Kind, process, train, Result, ok, err, Failure, Dict,
  Json, num, str, get_job, events, scalar_one_or_none,
}
use cad2ml.Jobs.Queue.{Client}
use cad2ml.Jobs.Exec.{World}
use cad2ml.Jobs.Service.{register_file, Submission, has_key}
use cad2ml.Jobs.Service.Submit.{submit_job}
use cad2ml.Storage.{ArtifactStore}
use cad2ml.Pipeline.{IntakeResult, source_key, prefix, SampleStatus, Manifest}
use cad2ml.Ingestion.{Contents, IngestionConfig, Inspection, accepted, refused, inspect_upload}

pub data Reply {ℓ} (A : Type ℓ) : Type ℓ where
  replied : ℕ → A → Reply A
  -- The status and the text or the code of the error.
  declined : ℕ → String → Reply A
  rejected_upload : ℕ → ErrorCode → Reply A
  failed : Failure → Reply A

abbrev pub is_too_large : ErrorCode → Bool
is_too_large file_too_large = true
is_too_large _ = false

-- `source_key` as the text of a column.
abbrev pub source_key_text : String → String
source_key_text sha =
    join_text "sources/" (join_text (prefix 2 sha) (join_text "/" (join_text sha ".step")))

pub record FileReply : Type 0 where
  pub file_id : String
  pub sha256 : String
  pub filename : String
  pub size_bytes : ℕ
  pub duplicate : Bool

-- `JobRequest`; a fault that is null or zero is absent.
pub record JobRequest : Type 0 where
  pub file_id : String
  pub faults : Dict

abbrev pub is_empty : Dict → Bool
is_empty [] = true
is_empty (x ∷ xs) = false

pub record Settings : Type 0 where
  pub enable_fault_injection : Bool
  pub max_attempts : ℕ
  -- PIPELINE_VERSION and `cfg.config_hash()`.
  pub pipeline_version : String
  pub config_hash : String

-- `process_idempotency_key` of cad2ml/jobs/service.py.
abbrev pub process_idempotency_key : Settings → String → String
process_idempotency_key settings sha =
    join_text sha
      (join_text ":" (join_text settings.pipeline_version (join_text ":" settings.config_hash)))

-- `file.filename or "upload.step"`
abbrev pub upload_name : Option String → String
upload_name none = "upload.step"
upload_name (some name) = if str_eq name "" then "upload.step" else name

module _ (e : Engine) (c : Client) (b : Contents) (st : ArtifactStore b.Data) where
  -- What the handlers share.
  pub record State : Type 0 where
    pub world : World c
    pub store : st.State

  -- The source is stored before the file is registered.
  unfoldable pub store_upload : String → b.Data → st.State → st.State
  store_upload sha data_ s =
      if st.exists s (source_key sha) then s else st.put_bytes (source_key sha) data_ s

  abbrev pub file_reply : FileRow → Bool → FileReply
  file_reply row created = record {
    file_id = row.file_id;
    sha256 = row.sha256;
    filename = row.filename;
    size_bytes = row.size_bytes;
    duplicate = not created;
  }

  -- The reply to a registration, in the state with the source stored.
  unfoldable pub registered : State → Result (Database × (FileRow × Bool)) → State × Reply FileReply
  registered s (err x) = (s, failed x)
  registered s (ok (db, (row, created))) = (
    record { world = record { db = db; redis = s.world.redis }; store = s.store },
    replied (if created then 201 else 200) (file_reply row created),
  )

  -- The rest of `upload` after the inspection.
  unfoldable pub inspected : Inspection → b.Data → ℕ → String → State → State × Reply FileReply
  unfolding store_upload registered
  inspected (refused x) data_ now file_id s =
      (s, rejected_upload (if is_too_large x.code then 413 else 422) x.code)
  inspected (accepted intake) data_ now file_id s =
      registered (record { world = s.world; store = store_upload intake.sha256 data_ s.store })
        (register_file e s.world.db now file_id intake.sha256 intake.filename intake.size_bytes
          (source_key_text intake.sha256))

  -- `data_` is what is read of the upload, at most one byte more than the limit; the name may be missing.
  unfoldable pub upload :
      IngestionConfig → Option String → b.Data → ℕ → String → State → State × Reply FileReply
  unfolding inspected
  upload cfg filename data_ now file_id s =
      inspected (inspect_upload b (upload_name filename) data_ cfg) data_ now file_id s

  abbrev pub find_file_row : Database → String → Result (Option FileRow)
  find_file_row db id =
      scalar_one_or_none (e.select (λ (f : FileRow). str_eq f.file_id id) db.files)

  -- The reply to a submission.
  unfoldable pub submitted :
      State → World c × Result (Option JobRow × Bool) → State × Reply (Option JobRow × Bool)
  submitted s (w, err x) = (record { world = w; store = s.store }, failed x)
  submitted s (w, ok (job, created)) =
      (record { world = w; store = s.store }, replied (if created then 202 else 200) (job, created))

  unfoldable pub submit_process :
      String
      → Settings
      → JobRequest
      → FileRow
      → String
      → String
      → String
      → ℕ
      → (ℕ → World c → World c)
      → State
      → State × Reply (Option JobRow × Bool)
  unfolding submitted
  submit_process key settings req f correlation_id job_id uuid now meanwhile s = submitted s (
      submit_job e c
        (record {
          kind = process;
          idempotency_key = key;
          file_id = some f.file_id;
          params = req.faults;
          max_attempts = settings.max_attempts;
          correlation_id = some correlation_id;
        })
        job_id uuid now meanwhile s.world)

  -- `key` is `process_idempotency_key`; `uuid` makes the key of a fault run unique.
  unfoldable pub submit_request :
      String
      → Settings
      → JobRequest
      → FileRow
      → String
      → String
      → String
      → ℕ
      → (ℕ → World c → World c)
      → State
      → State × Reply (Option JobRow × Bool)
  unfolding submit_process
  submit_request key settings req f correlation_id job_id uuid now meanwhile s =
      if is_empty req.faults
      then submit_process key settings req f correlation_id job_id uuid now meanwhile s
      else if settings.enable_fault_injection
      then submit_process (join_text key (join_text ":fault:" uuid)) settings req f correlation_id
          job_id uuid now meanwhile s
      else (s, declined 400 "fault injection disabled")

  -- The rest of `create_job` after the look-up of the file.
  unfoldable pub looked_up :
      Result (Option FileRow)
      → Settings
      → JobRequest
      → String
      → String
      → String
      → ℕ
      → (ℕ → World c → World c)
      → State
      → State × Reply (Option JobRow × Bool)
  unfolding submit_request
  looked_up (err x) settings req correlation_id job_id uuid now meanwhile s = (s, failed x)
  looked_up (ok none) settings req correlation_id job_id uuid now meanwhile s =
      (s, declined 404 "unknown file_id")
  looked_up (ok (some f)) settings req correlation_id job_id uuid now meanwhile s =
      submit_request (process_idempotency_key settings f.sha256) settings req f correlation_id
        job_id uuid now meanwhile s

  unfoldable pub request_job :
      Settings
      → JobRequest
      → String
      → String
      → String
      → ℕ
      → (ℕ → World c → World c)
      → State
      → State × Reply (Option JobRow × Bool)
  unfolding looked_up
  request_job settings req correlation_id job_id uuid now meanwhile s =
      looked_up (find_file_row s.world.db req.file_id) settings req correlation_id job_id uuid now
        meanwhile s

  -- The readers: they leave the state as it is.
  unfoldable pub get_job_handler : State → String → Reply JobRow
  get_job_handler s id = elim (get_job e s.world.db id) [
    | err x ↦ failed x
    | ok none ↦ declined 404 "unknown job"
    | ok (some job) ↦ replied 200 job
  ]

  unfoldable pub job_events_handler : State → String → Reply (String × List JobEventRow)
  job_events_handler s id = elim (get_job e s.world.db id) [
    | err x ↦ failed x
    | ok none ↦ declined 404 "unknown job"
    | ok (some job) ↦ replied 200 (id, events e s.world.db id)
  ]
