-- ===== src/Examples/Uploads.antt =====
-- Runs of the handlers of apps/api/main.py and of the intake, on texts in the place of bytes.
use cad2ml.Prelude.{◌≡◌, ◌↔◌, refl, true, false, [], ◌∷◌, none, some, String, str_eq, if◌then◌else◌}
use cad2ml.Jobs.Engine.{list_engine}
use cad2ml.Jobs.Db.{num, scalar_one_or_none}
use cad2ml.Jobs.Queue.Lists.{list_client}
use cad2ml.Storage.{ArtifactStore}
use cad2ml.Storage.Local.{Files, local_store}
use cad2ml.Storage.Paths.{same_path}
use cad2ml.Ingestion.{Contents, IngestionConfig, inspect_upload}
use cad2ml.Ingestion.Accepts.{IsAccepted, IsAcceptable, inspect_upload-accepts}
use cad2ml.Api.{
  State, Settings, JobRequest, upload, request_job, inspected, looked_up, submit_request,
}
use cad2ml.Api.Replies.{is_declined, upload_keeps, upload_declined, request_job_declined}
use cad2ml.Examples.Scenes.{idle, running}

-- A text of one byte; the text "step" starts as STEP does.
abbrev texts : Contents
texts = record {
  Data = String;
  size = λ d. if str_eq d "" then 0 else 1;
  sha256_bytes = λ d. d;
  starts_as_step = λ d. str_eq d "step";
  schema_group = λ d. none;
  name_strings = λ d. none;
  strip = λ t. t;
  base_name = λ n. n;
  ascii_part = λ n. n;
  safe_part = λ n. n;
  strip_marks = λ n. n;
  len = λ n. 9;
  rpartition = λ n. ("part", (".", "STEP"));
  has_dot = λ n. true;
  after_last_dot = λ n. "STEP";
  lower = λ t. "step";
}

abbrev intake_config : IngestionConfig
intake_config = record { max_file_bytes = 4; allowed_extensions = ".step" ∷ ".stp" ∷ [] }

inspect_upload-accepts_example :
    IsAccepted texts "part.STEP" "step" intake_config
    ↔ IsAcceptable texts "part.STEP" "step" intake_config
inspect_upload-accepts_example = inspect_upload-accepts texts "part.STEP" "step" intake_config

abbrev old_files : Files String
old_files = ("sources" ∷ "st" ∷ "step.step" ∷ [], "step") ∷ []

abbrev before : State list_engine list_client texts (local_store String)
before = record { world = record { db = running; redis = idle }; store = old_files }

old_bytes :
    ArtifactStore.get_bytes (local_store String) old_files ("sources" ∷ "st" ∷ "step.step" ∷ [])
    ≡ some "step"
unfolding same_path
old_bytes = refl

upload_keeps_example :
    ArtifactStore.get_bytes
      (local_store String)
      (upload list_engine list_client texts
        (local_store String)
        intake_config
        (some "part.STEP")
        "step"
        9
        "f2"
        before).0.store
      ("sources" ∷ "st" ∷ "step.step" ∷ [])
    ≡ some "step"
upload_keeps_example =
    upload_keeps list_engine list_client texts (local_store String) intake_config (some "part.STEP")
      "step" 9 "f2" before ("sources" ∷ "st" ∷ "step.step" ∷ []) "step" old_bytes

not_step :
    is_declined
      (upload list_engine list_client texts
        (local_store String)
        intake_config
        (some "part.STEP")
        "pdf"
        9
        "f2"
        before).1
    ≡ true
unfolding upload inspected inspect_upload
not_step = refl

upload_declined_example :
    (upload list_engine list_client texts
      (local_store String)
      intake_config
      (some "part.STEP")
      "pdf"
      9
      "f2"
      before).0
    ≡ before
upload_declined_example =
    upload_declined list_engine list_client texts (local_store String) intake_config
      (some "part.STEP") "pdf" 9 "f2" before not_step

abbrev settings : Settings
settings = record {
  enable_fault_injection = false;
  max_attempts = 3;
  pipeline_version = "1";
  config_hash = "c";
}

abbrev faulty : JobRequest
faulty = record { file_id = "f9"; faults = ("fault_parse_sleep_s", num 5) ∷ [] }

unknown_file :
    is_declined
      (request_job list_engine list_client texts
        (local_store String)
        settings
        faulty
        "c"
        "j2"
        "uuid"
        9
        (λ n w. w)
        before).1
    ≡ true
unfolding request_job looked_up submit_request scalar_one_or_none
unknown_file = refl

request_job_declined_example :
    (request_job list_engine list_client texts
      (local_store String)
      settings
      faulty
      "c"
      "j2"
      "uuid"
      9
      (λ n w. w)
      before).0
    ≡ before
request_job_declined_example =
    request_job_declined list_engine list_client texts (local_store String) settings faulty "c" "j2"
      "uuid" 9 (λ n w. w) before unknown_file
