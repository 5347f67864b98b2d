-- ===== src/Jobs/Service.antt =====
-- cad2ml/jobs/service.py: submission, claiming and leases. New ids and the clock are
-- arguments; an operation reads the clock once. Logs and metrics are left out.
pub mod Recovery
pub mod Submit
pub mod Submitting
pub mod Claim
pub mod Invariant
pub mod Keeping
pub mod System
pub mod Outcomes
pub mod Moves
pub mod Reaper
pub mod Others
pub mod Reaping
pub mod Reconciler
pub mod Final
use cad2ml.Prelude.{
  ℕ, ◌+◌, Bool, true, false, not, ◌&&◌, ◌||◌, List, [], ◌∷◌, map, Option, none, some, String,
  str_eq, ◌==◌, ltb, if◌then◌else◌, contains, keep, any,
}
use cad2ml.Errors.{ErrorCode, worker_lost, Outcome, error_codes}
use cad2ml.Jobs.States.{
  JobState, received, validated, queued, rejected, failed_retryable, failed_terminal, timed_out,
  quarantined, same, is_in_flight, is_terminal,
}
use cad2ml.Jobs.Engine.{Engine}
use cad2ml.Jobs.Db.{
  JobRow, FileRow, WorkerRow, entered, Kind, process, train, Database, Dict, Json, num, str, null,
  flag, Fields, no_fields, given, Result, ok, err, integrity_error, assertion_error, has_id,
  in_state, transition, append_event, get_job, scalar_one, scalar_one_or_none,
}
use cad2ml.Jobs.Queue.{Client, enqueue, queued_ids}
use cad2ml.Jobs.Exec.{World, Exec, pure, on_db, read_db, on_redis, ◌>>=◌, ◌>>◌}

abbrev pub same_kind : Kind → Kind → Bool
same_kind process process = true
same_kind process train = false
same_kind train process = false
same_kind train train = true

abbrev pub file_clash : FileRow → FileRow → Bool
file_clash a b = str_eq a.file_id b.file_id || str_eq a.sha256 b.sha256

abbrev pub has_key : Kind → String → JobRow → Bool
has_key kind key r = same_kind r.kind kind && str_eq r.idempotency_key key

-- The primary key, and the constraint `uq_jobs_kind_idempotency`.
abbrev pub job_clash : JobRow → JobRow → Bool
job_clash a b = has_id a.job_id b || has_key a.kind a.idempotency_key b

pub record Submission : Type 0 where
  pub kind : Kind
  pub idempotency_key : String
  pub file_id : Option String
  pub params : Dict
  pub max_attempts : ℕ
  pub correlation_id : Option String

-- `correlation_id or uuid4().hex`
abbrev pub or_uuid : Option String → String → String
or_uuid none uuid = uuid
or_uuid (some c) uuid = if str_eq c "" then uuid else c

unfoldable pub new_job : Submission → String → String → ℕ → JobRow
new_job s job_id uuid now = record {
  job_id = job_id;
  kind = s.kind;
  idempotency_key = s.idempotency_key;
  file_id = s.file_id;
  sample_id = none;
  state = received;
  attempts = 0;
  max_attempts = s.max_attempts;
  worker_id = none;
  lease_expires_at = none;
  error_code = none;
  error_message = none;
  correlation_id = or_uuid s.correlation_id uuid;
  params = s.params;
  result = none;
  created_at = now;
  updated_at = now;
  started_at = none;
  finished_at = none;
}

-- `values(…)` of a claim.
unfoldable pub claimed : JobState → String → ℕ → ℕ → JobRow → JobRow
claimed first_state worker now lease_s r = record r {
  state = first_state;
  worker_id = some worker;
  attempts = r.attempts + 1;
  lease_expires_at = some (now + lease_s);
  started_at = some now;
  updated_at = now;
}

abbrev pub opt_text : Option String → Json
opt_text none = null
opt_text (some t) = str t

abbrev pub opt_num : Option ℕ → Json
opt_num none = null
opt_num (some n) = num n

unfoldable pub outcome_state : ErrorCode → JobState
unfolding error_codes
outcome_state code = elim (error_codes code).outcome [
  | Outcome.rejected ↦ rejected
  | Outcome.quarantined ↦ quarantined
  | Outcome.timed_out ↦ timed_out
  | Outcome.failed_retryable ↦ failed_retryable
  | Outcome.failed_terminal ↦ failed_terminal
]

unfoldable pub is_done : JobState → Bool
is_done state = is_terminal state

-- The foreign key of `file_id`: null, or the id of a file.
unfoldable pub has_file : Option String → List FileRow → Bool
has_file none files = true
has_file (some id) files = any (λ (f : FileRow). str_eq f.file_id id) files

module _ (e : Engine) where
  unfoldable pub register_file :
      Database → ℕ → String → String → String → ℕ → String → Result (Database × (FileRow × Bool))
  register_file db now file_id sha256 filename size storage_key =
      elim (scalar_one_or_none (e.select (λ (f : FileRow). str_eq f.sha256 sha256) db.files)) [
        | err x ↦ err x
        | ok (some row) ↦ ok (db, (row, false))
        | ok none ↦
            let row : FileRow = record {
              file_id = file_id;
              sha256 = sha256;
              filename = filename;
              size_bytes = size;
              storage_key = storage_key;
              created_at = now;
            } in
            elim (e.insert file_clash row db.files) [
              | none ↦ err integrity_error
              | some files ↦ ok (record db { files = files }, (row, true))
            ]
      ]

  unfoldable pub find_job : Kind → String → Database → Result (Option JobRow)
  find_job kind key db = scalar_one_or_none (e.select (has_key kind key) db.jobs)

  -- The insertion of a job and of its first event, one session: false on an `IntegrityError`.
  unfoldable pub insert_job : JobRow → ℕ → Database → Result (Database × Bool)
  insert_job job now db =
      if has_file job.file_id db.files
      then (elim (e.insert job_clash job db.jobs) [
        | none ↦ ok (db, false)
        | some jobs ↦
            elim (append_event e (record db { jobs = jobs })
              (record {
                job_id = job.job_id;
                state = entered received;
                attempt = 0;
                worker_id = none;
                detail = ("idempotency_key", str job.idempotency_key) ∷ [];
                created_at = now;
              })) [ err x ↦ ok (db, false) | ok db' ↦ ok (db', true) ]
      ])
      else ok (db, false)

  -- The row as the update left it, and the event of the claim.
  unfoldable pub claim_row :
      Database → ℕ → String → String → JobState → Result (Database × Option JobRow)
  claim_row db now job_id worker_id first_state = elim (get_job e db job_id) [
    | err x ↦ err x
    | ok none ↦ err assertion_error
    | ok (some job) ↦
        elim (append_event e db (record {
          job_id = job_id;
          state = entered first_state;
          attempt = job.attempts;
          worker_id = some worker_id;
          detail = ("claimed", flag true) ∷ [];
          created_at = now;
        })) [ err x ↦ err x | ok db' ↦ ok (db', some job) ]
  ]

  unfoldable pub claim :
      Database → ℕ → String → String → ℕ → JobState → Result (Database × Option JobRow)
  claim db now job_id worker_id lease_s first_state =
      if e.rowcount (in_state job_id queued) db.jobs == 1
      then claim_row
          (record db {
            jobs =
                e.update (in_state job_id queued) (claimed first_state worker_id now lease_s)
                  db.jobs;
          })
          now job_id worker_id first_state
      else ok (
        record db {
          jobs =
              e.update (in_state job_id queued) (claimed first_state worker_id now lease_s) db.jobs;
        },
        none,
      )

  -- The worker's own row: inserted at its first heartbeat.
  unfoldable pub beat : List WorkerRow → ℕ → String → Option String → Result (List WorkerRow)
  beat workers now worker_id job_id =
      elim (scalar_one_or_none
        (e.select (λ (w : WorkerRow). str_eq w.worker_id worker_id) workers)) [
          | err x ↦ err x
          | ok none ↦
              elim (e.insert (λ (a b : WorkerRow). str_eq a.worker_id b.worker_id)
                (record { worker_id = worker_id; heartbeat_at = now; current_job_id = job_id })
                workers) [ none ↦ err integrity_error | some rows ↦ ok rows ]
          | ok (some w) ↦ ok (
              e.update (λ (v : WorkerRow). str_eq v.worker_id worker_id)
                (λ (v : WorkerRow). record v { heartbeat_at = now; current_job_id = job_id })
                workers)
        ]

  -- WHERE job_id = id AND worker_id = worker
  unfoldable pub held_by : String → String → JobRow → Bool
  held_by worker id r =
      has_id id r && (elim r.worker_id [ none ↦ false | some w ↦ str_eq w worker ])

  unfoldable pub extend_lease : ℕ → String → Option String → ℕ → List JobRow → List JobRow
  extend_lease now worker none lease_s jobs = jobs
  extend_lease now worker (some id) lease_s jobs =
      if str_eq id ""
      then jobs
      else e.update (held_by worker id)
          (λ (r : JobRow). record r { lease_expires_at = some (now + lease_s) }) jobs

  unfoldable pub heartbeat :
      Database → ℕ → String → Option String → ℕ → Result (Database × Unit {0})
  heartbeat db now worker_id job_id lease_s = elim (beat db.workers now worker_id job_id) [
    | err x ↦ err x
    | ok workers ↦ ok (
      record db { workers = workers; jobs = extend_lease now worker_id job_id lease_s db.jobs },
      tt,
    )
  ]

module _ (e : Engine) (c : Client) where
  abbrev pub move :
      ℕ → String → JobState → JobState → Dict → Option String → Fields → Exec (World c) Bool
  move now id src dst detail worker fields =
      on_db (λ db. transition e db now id src dst detail worker fields)
