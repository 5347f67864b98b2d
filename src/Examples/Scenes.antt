-- ===== src/Examples/Scenes.antt =====
-- Tables, a transport and runs that the examples share.
use cad2ml.Prelude.{ℕ, refl, List, [], ◌∷◌, none, some, String, true, false, ◌++◌}
use cad2ml.Errors.{storage_io_error}
use cad2ml.Jobs.States.{JobState, received, validated, queued, parsing, completed, check_transition}
use cad2ml.Jobs.Engine.{list_engine}
use cad2ml.Jobs.Db.{
  JobRow, FileRow, scalar_one_or_none, Database, process, ok, err, no_fields, transition,
  append_event, in_state, record_event, attribute_error, moved, get_job, JobEventRow, str, flag,
  entered,
}
use cad2ml.Jobs.Queue.{Key, queue, processing}
use cad2ml.Jobs.Service.{
  Submission, new_job, insert_job, register_file, has_file, claim, claim_row, claimed,
}
use cad2ml.Jobs.Service.System.{Reach, here, next, registers, submits, moves, claims, empty_db}
use cad2ml.Jobs.Service.Moves.{At}
use cad2ml.Worker.{Job}

abbrev pub submission : Submission
submission = record {
  kind = process;
  idempotency_key = "key";
  file_id = some "file";
  params = [];
  max_attempts = 2;
  correlation_id = some "corr";
}

abbrev pub noted : JobState → ℕ → ℕ → JobEventRow
noted state attempt now = record {
  job_id = "j1";
  state = entered state;
  attempt = attempt;
  worker_id = none;
  detail = [];
  created_at = now;
}

abbrev pub new_row : JobRow
new_row = record {
  job_id = "j1";
  kind = process;
  idempotency_key = "key";
  file_id = some "file";
  sample_id = none;
  state = received;
  attempts = 0;
  max_attempts = 2;
  worker_id = none;
  lease_expires_at = none;
  error_code = none;
  error_message = none;
  correlation_id = "corr";
  params = [];
  result = none;
  created_at = 1;
  updated_at = 1;
  started_at = none;
  finished_at = none;
}

abbrev pub running_job : JobRow
running_job = record new_row {
  state = parsing;
  attempts = 1;
  worker_id = some "w1";
  lease_expires_at = some 64;
  started_at = some 4;
  updated_at = 4;
}

abbrev pub waiting_events : List JobEventRow
waiting_events =
    record (noted received 0 1) { detail = ("idempotency_key", str "key") ∷ [] }
    ∷ noted validated 0 2
    ∷ noted queued 0 3
    ∷ []

abbrev pub running_events : List JobEventRow
running_events =
    waiting_events
    ++ record (noted parsing 1 4) { worker_id = some "w1"; detail = ("claimed", flag true) ∷ [] }
      ∷ []

abbrev pub the_file : FileRow
the_file = record {
  file_id = "file";
  sha256 = "step";
  filename = "part.step";
  size_bytes = 1;
  storage_key = "sources/st/step.step";
  created_at = 0;
}

-- The tables before a claim, after it, and at the end.
abbrev pub waiting : Database
waiting = record {
  files = the_file ∷ [];
  workers = [];
  jobs = record new_row { state = queued; updated_at = 3 } ∷ [];
  events = waiting_events;
}

abbrev pub running : Database
running = record {
  files = the_file ∷ [];
  workers = [];
  jobs = running_job ∷ [];
  events = running_events;
}

abbrev pub done : Database
done = record {
  files = the_file ∷ [];
  workers = [];
  jobs = record running_job { state = completed; updated_at = 5 } ∷ [];
  events = running_events ++ record (noted completed 1 5) { worker_id = some "w1" } ∷ [];
}

to_waiting : Reach list_engine empty_db waiting
unfolding insert_job register_file scalar_one_or_none has_file transition append_event
    check_transition in_state new_job record_event moved
to_waiting =
    next
      (next
        (next (next here (registers 0 "file" "step" "part.step" 1 "sources/st/step.step" _ refl))
          (submits submission "j1" "uuid" 1 true refl))
        (moves 2 "j1" received validated [] none no_fields true refl))
      (moves 3 "j1" validated queued [] none no_fields true refl)

pub to_running : Reach list_engine empty_db running
unfolding claim check_transition in_state record_event moved claim_row get_job claimed
to_running = next to_waiting (claims 4 "j1" "w1" 60 parsing _ refl refl)

pub to_done : Reach list_engine empty_db done
unfolding transition check_transition in_state record_event moved claim_row get_job claimed
to_done = next to_running (moves 5 "j1" parsing completed [] (some "w1") no_fields true refl)

-- The job of `running` and of `waiting` in the one row of its table.
pub running_row : At "j1" parsing 1 2 running
running_row = record {
  unique = (tt, tt);
  row = record {
    before = [];
    row = running_job;
    after = [];
    split = refl;
    found = refl;
    before_fresh = tt;
    after_fresh = tt;
  };
  state = refl;
  attempts = refl;
  max_attempts = refl;
}

abbrev pub idle : Key → List String
idle k = []

abbrev pub reserved : Key → List String
reserved queue = []
reserved (processing w) = "j1" ∷ []

-- A run of the pipeline that reports two stages and fails with an error that may be tried again.
abbrev pub flaky : Job
flaky = record {
  stages = ("parsing", []) ∷ ("extracting", []) ∷ [];
  processed = ok record {
    sample_id = "s";
    is_completed = false;
    status = "failed_retryable";
    face_count = none;
    rejection = some (storage_io_error, "down");
  };
  trained = err attribute_error;
}
