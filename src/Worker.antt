-- ===== src/Worker.antt =====
-- apps/worker/main.py: how a worker handles one delivered job id. What the pipeline or the training
-- run does, the stages that it reports and the manifest or the exception that it ends with, is an
-- argument. The clock is read once in an operation; logs, metrics, sleeps and the
-- cutting of long messages are left out.
pub mod Keeping
pub mod Tracks
pub mod Settles
pub mod Rests
use cad2ml.Prelude.{
  ℕ, ◌+◌, ◌≡◌, Bool, true, false, not, ◌&&◌, ◌||◌, List, [], ◌∷◌, Option, none, some, String,
  str_eq, ltb, if◌then◌else◌,
}
use cad2ml.Errors.{ErrorCode, internal_error, error_codes}
use cad2ml.Jobs.States.{
  JobState, queued, parsing, normalizing, extracting, validating_outputs, training, completed,
  failed_retryable, failed_terminal, same,
}
use cad2ml.Jobs.Engine.{Engine}
use cad2ml.Jobs.Db.{
  JobRow, FileRow, Kind, process, train, Database, Dict, Json, num, str, error, flag, null, Fields,
  no_fields, given, Result, ok, err, Failure, assertion_error, attribute_error, get_job, add_event,
  scalar_one_or_none,
}
use cad2ml.Jobs.Queue.{Client, enqueue, ack}
use cad2ml.Jobs.Exec.{no_value, World, Exec, pure, raise, on_db, read_db, on_redis, ◌>>=◌, ◌>>◌}
use cad2ml.Jobs.Service.{move, claim, heartbeat, outcome_state, is_done}

-- What `_run_processing` reads of a manifest.
pub record Processed : Type 0 where
  pub sample_id : String
  pub is_completed : Bool
  pub status : String
  pub face_count : Option ℕ
  pub rejection : Option (ErrorCode × String)

pub record Trained : Type 0 where
  pub run_id : String
  pub result : Dict

-- A run of the pipeline or of a training, as the worker sees it.
pub record Job : Type 0 where
  pub stages : List (String × Dict)
  pub processed : Result Processed
  pub trained : Result Trained

module _ {S A : Type 0} where
  abbrev pub handled : (Failure → Exec S A) → S × Result A → S × Result A
  handled h (s, ok a) = (s, ok a)
  handled h (s, err x) = h x s

  -- `try: m except Exception: h`
  unfoldable pub try_except : Exec S A → (Failure → Exec S A) → Exec S A
  try_except m h s = handled h (m s)

  -- `try: m finally: k`, where `k` does not raise.
  unfoldable pub try_finally : Exec S A → (S → S) → Exec S A
  try_finally m k s = let (s', r) = m s in (k s', r)

unfoldable pub stage_state : String → Option JobState
stage_state stage =
    if str_eq stage "normalizing"
    then some normalizing
    else if str_eq stage "extracting"
    then some extracting
    else if str_eq stage "validating_outputs"
    then some validating_outputs
    else none

unfoldable pub is_noted : String → Bool
is_noted stage = str_eq stage "validated" || str_eq stage "parsing"

unfoldable pub stage_event : String → String
stage_event stage = if str_eq stage "validated" then "stage:validated" else "stage:parsing"

abbrev pub opt_count : Option ℕ → Json
opt_count none = null
opt_count (some n) = num n

unfoldable pub code_of : Processed → ErrorCode
code_of m = elim m.rejection [ none ↦ internal_error | some (code, message) ↦ code ]

unfoldable pub message_of : Processed → Option String
message_of m = elim m.rejection [ none ↦ none | some (code, message) ↦ some message ]

unfoldable pub message_or_empty : Processed → String
message_or_empty m = elim m.rejection [ none ↦ "" | some (code, message) ↦ message ]

unfoldable pub first_state : Kind → JobState
first_state train = training
first_state process = parsing

module _ (e : Engine) (c : Client) (worker : String) (now : ℕ) where
  -- The branch of `progress` for a stage that is no new state.
  unfoldable pub note_stage : String → JobState → String → Dict → Exec (World c) JobState
  note_stage id cur stage info =
      if is_noted stage
      then (do
        on_db (λ db. no_value (add_event e db now id (stage_event stage) info (some worker)))
        pure cur)
      else pure cur

  -- `progress` once the stage is looked up.
  unfoldable pub enter :
      Option JobState → String → JobState → String → Dict → Exec (World c) JobState
  enter none id cur stage info = note_stage id cur stage info
  enter (some target) id cur stage info =
      if same target cur then note_stage id cur stage info else (do
        moved ← move e c now id cur target info (some worker) no_fields
        pure (if moved then target else cur))

  -- `progress`: the new value of `state["cur"]`.
  unfoldable pub progress : String → JobState → String → Dict → Exec (World c) JobState
  progress id cur stage info = enter (stage_state stage) id cur stage info

  unfoldable pub progress_all : String → JobState → List (String × Dict) → Exec (World c) JobState
  progress_all id cur [] = pure cur
  progress_all id cur ((stage, info) ∷ rest) = do
    cur' ← progress id cur stage info
    progress_all id cur' rest

  unfoldable pub complete : String → JobState → Processed → Exec (World c) Bool
  complete id cur m =
      move e c now id cur completed (("sample_id", str m.sample_id) ∷ []) (some worker)
        (record no_fields {
          sample_id = given (some m.sample_id);
          finished_at = given (some now);
          result = given (
              some (
                ("sample_id", str m.sample_id)
                ∷ ("status", str "completed")
                ∷ ("face_count", opt_count m.face_count)
                ∷ []));
        })

  -- The end of a retryable failure, by the row that is read back.
  unfoldable pub requeue_or_fail : String → Option JobRow → Exec (World c) (Unit {0})
  requeue_or_fail id refreshed =
      if (elim refreshed [ none ↦ false | some r ↦ ltb r.attempts r.max_attempts ])
      then (do
        move e c now id failed_retryable queued
            (("retry", num (elim refreshed [ none ↦ 0 | some r ↦ r.attempts + 1 ])) ∷ []) none
            no_fields
        on_redis (enqueue c id))
      else (do
        move e c now id failed_retryable failed_terminal
            (("reason", str "max_attempts_exhausted") ∷ []) none
            (record no_fields { finished_at = given (some now) })
        pure tt)

  unfoldable pub fail_retryable : String → JobState → ErrorCode → Exec (World c) (Unit {0})
  fail_retryable id cur code = do
    lost ←
        move e c now id cur failed_retryable (("code", error code) ∷ []) (some worker)
          (record no_fields { error_code = given (some code) })
    if lost
        then (do refreshed ← read_db (λ db. get_job e db id); requeue_or_fail id refreshed)
        else pure tt

  unfoldable pub fail_for_good : String → JobState → Processed → Exec (World c) (Unit {0})
  fail_for_good id cur m = do
    move e c now id cur (outcome_state (code_of m))
        (("code", error (code_of m))
          ∷ ("message", str (message_or_empty m))
          ∷ ("retryable", flag (error_codes (code_of m)).retryable)
          ∷ [])
        (some worker)
        (record {
          sample_id = given (some m.sample_id);
          error_code = given (some (code_of m));
          error_message = given (message_of m);
          finished_at = given (some now);
          result = given (some (("sample_id", str m.sample_id) ∷ ("status", str m.status) ∷ []));
        })
    pure tt

  -- What follows the pipeline's manifest.
  unfoldable pub settle : String → JobState → Processed → Exec (World c) (Unit {0})
  settle id cur m =
      if m.is_completed
      then complete id cur m >> pure tt
      else if same (outcome_state (code_of m)) failed_retryable
      then fail_retryable id cur (code_of m)
      else fail_for_good id cur m

  unfoldable pub find_file : Option String → Database → Result FileRow
  find_file none db = err assertion_error
  find_file (some fid) db =
      elim (scalar_one_or_none (e.select (λ (f : FileRow). str_eq f.file_id fid) db.files)) [
        | err x ↦ err x
        | ok none ↦ err assertion_error
        | ok (some f) ↦ ok f
      ]

  -- `_run_processing` from the end of `process_source` on.
  unfoldable pub finish_processing :
      String → Result Processed → JobState → Exec (World c) (Unit {0})
  finish_processing id processed cur = do m ← read_db (λ db. processed); settle id cur m

  unfoldable pub run_processing : JobRow → Job → Exec (World c) (Unit {0})
  run_processing job run = do
    f ← read_db (find_file job.file_id)
    cur ← progress_all job.job_id parsing run.stages
    finish_processing job.job_id run.processed cur

  unfoldable pub finish_training : String → Result Trained → Exec (World c) (Unit {0})
  finish_training id trained = do
    t ← read_db (λ db. trained)
    move e c now id training completed (("run_id", str t.run_id) ∷ []) (some worker)
        (record no_fields { finished_at = given (some now); result = given (some t.result) })
    pure tt

  unfoldable pub run_training : JobRow → Job → Exec (World c) (Unit {0})
  run_training job run = finish_training job.job_id run.trained

  -- `self.db.get_job(job_id).state`
  unfoldable pub state_of_job : String → Database → Result JobState
  state_of_job id db = elim (get_job e db id) [
    | err x ↦ err x
    | ok none ↦ err attribute_error
    | ok (some r) ↦ ok r.state
  ]

  -- The `except` clause of `handle`; `message` is the text of the exception.
  unfoldable pub give_up : String → String → Exec (World c) (Unit {0})
  give_up id message = do
    state ← read_db (state_of_job id)
    if not (same state completed) && not (is_done state)
        then (do
          move e c now id state failed_terminal (("error", str message) ∷ []) (some worker)
              (record no_fields {
                error_code = given (some internal_error);
                error_message = given (some message);
                finished_at = given (some now);
              })
          pure tt)
        else pure tt

  unfoldable pub run_kind : Kind → JobRow → Job → Exec (World c) (Unit {0})
  run_kind train job run = run_training job run
  run_kind process job run = run_processing job run

  unfoldable pub run_claimed : JobRow → Job → Exec (World c) (Unit {0})
  run_claimed job run = run_kind job.kind job run

  unfoldable pub ack_job : String → World c → World c
  ack_job id w = record w { redis = ack c worker id w.redis }

  -- The `try … except … finally` of `handle`.
  unfoldable pub guarded_run : String → JobRow → Job → String → Exec (World c) (Unit {0})
  guarded_run id job run message =
      try_finally (try_except (run_claimed job run) (λ x. give_up id message)) (ack_job id)

  unfoldable pub handle_claimed : String → JobRow → ℕ → Job → String → Exec (World c) (Unit {0})
  handle_claimed id job lease_s run message = do
    on_db (λ db. heartbeat e db now worker (some id) lease_s)
    guarded_run id job run message

  unfoldable pub handle_claim :
      String → Option JobRow → ℕ → Job → String → Exec (World c) (Unit {0})
  handle_claim id none lease_s run message = on_redis (ack c worker id)
  handle_claim id (some r) lease_s run message = handle_claimed id r lease_s run message

  unfoldable pub handle_found :
      String → Option JobRow → ℕ → Job → String → Exec (World c) (Unit {0})
  handle_found id none lease_s run message = on_redis (ack c worker id)
  handle_found id (some row) lease_s run message = do
    claimed ← on_db (λ db. claim e db now id worker lease_s (first_state row.kind))
    handle_claim id claimed lease_s run message

  unfoldable pub handle : String → ℕ → Job → String → Exec (World c) (Unit {0})
  handle id lease_s run message = do
    job ← read_db (λ db. get_job e db id)
    handle_found id job lease_s run message
