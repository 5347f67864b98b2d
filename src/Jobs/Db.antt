-- ===== src/Jobs/Db.antt =====
-- cad2ml/jobs/db.py: the durable tables, and the guarded compare-and-set on a job's state.
pub mod Rows
pub mod Cas
pub mod History
use cad2ml.Prelude.{
  ◌⊎◌, inl, inr, refl, ℕ, Bool, true, false, ◌&&◌, List, [], ◌∷◌, map, Option, none, some, String,
  str_eq, ◌==◌, if◌then◌else◌, ◌≡◌,
}
use cad2ml.Errors.{ErrorCode}
use cad2ml.Jobs.States.{JobState, same, check_transition}
use cad2ml.Jobs.Engine.{Engine}

-- JSON values as the job tables hold them; a time is the number that its text denotes.
pub data Json : Type 0 where
  null : Json
  num : ℕ → Json
  str : String → Json
  flag : Bool → Json
  error : ErrorCode → Json

abbrev pub Dict : Type 0
Dict = List (String × Json)

pub record FileRow : Type 0 where
  pub file_id : String
  pub sha256 : String
  pub filename : String
  pub size_bytes : ℕ
  pub storage_key : String
  pub created_at : ℕ

pub data Kind : Type 0 where
  process train : Kind

-- A time is a number.
pub record JobRow : Type 0 where
  pub job_id : String
  pub kind : Kind
  pub idempotency_key : String
  pub file_id : Option String
  pub sample_id : Option String
  pub state : JobState
  pub attempts : ℕ
  pub max_attempts : ℕ
  pub worker_id : Option String
  pub lease_expires_at : Option ℕ
  pub error_code : Option ErrorCode
  pub error_message : Option String
  pub correlation_id : String
  pub params : Dict
  pub result : Option Dict
  pub created_at : ℕ
  pub updated_at : ℕ
  pub started_at : Option ℕ
  pub finished_at : Option ℕ

-- The `state` column of an event holds a job state, or the text `stage:…` of a progress event.
pub data EventState : Type 0 where
  entered : JobState → EventState
  reported : String → EventState

pub record JobEventRow : Type 0 where
  pub job_id : String
  pub state : EventState
  pub attempt : ℕ
  pub worker_id : Option String
  pub detail : Dict
  pub created_at : ℕ

pub record WorkerRow : Type 0 where
  pub worker_id : String
  pub heartbeat_at : ℕ
  pub current_job_id : Option String

pub record Database : Type 0 where
  pub files : List FileRow
  pub jobs : List JobRow
  pub events : List JobEventRow
  pub workers : List WorkerRow

pub data Failure : Type 0 where
  illegal_transition : JobState → JobState → Failure
  integrity_error no_result_found multiple_results_found : Failure
  assertion_error attribute_error : Failure
  raised : String → Failure

pub data Result {ℓ} (A : Type ℓ) : Type ℓ where
  ok : A → Result A
  err : Failure → Result A

pub Result-cases {ℓ} :
    {A : Type ℓ} (r : Result A) → ((f : Failure) × (r ≡ err f)) ⊎ ((a : A) × (r ≡ ok a))
Result-cases (ok a) = inr (a, refl)
Result-cases (err f) = inl (f, refl)

-- The `**fields` of `transition`: the columns that the call names.
pub data Given (A : Type 0) : Type 0 where
  absent : Given A
  given : A → Given A

abbrev pub write : {A : Type 0} → Given A → A → A
write absent old = old
write (given new) old = new

pub record Fields : Type 0 where
  pub sample_id : Given (Option String)
  pub error_code : Given (Option ErrorCode)
  pub error_message : Given (Option String)
  pub result : Given (Option Dict)
  pub finished_at : Given (Option ℕ)

abbrev pub no_fields : Fields
no_fields = record {
  sample_id = absent;
  error_code = absent;
  error_message = absent;
  result = absent;
  finished_at = absent;
}

abbrev pub has_id : String → JobRow → Bool
has_id id r = str_eq r.job_id id

-- WHERE job_id = id AND state = src
unfoldable pub in_state : String → JobState → JobRow → Bool
in_state id src r = has_id id r && same r.state src

-- SET state = dst, updated_at = now and the named columns
unfoldable pub moved : JobState → ℕ → Fields → JobRow → JobRow
moved dst now f r = record r {
  state = dst;
  updated_at = now;
  sample_id = write f.sample_id r.sample_id;
  error_code = write f.error_code r.error_code;
  error_message = write f.error_message r.error_message;
  result = write f.result r.result;
  finished_at = write f.finished_at r.finished_at;
}

-- `scalar_one`: exactly one row.
unfoldable pub scalar_one {ℓ} : {A : Type ℓ} → List A → Result A
scalar_one [] = err no_result_found
scalar_one (a ∷ []) = ok a
scalar_one (a ∷ b ∷ rest) = err multiple_results_found

-- `scalar_one_or_none`, and `Session.get` by a primary key: at most one row.
unfoldable pub scalar_one_or_none {ℓ} : {A : Type ℓ} → List A → Result (Option A)
scalar_one_or_none [] = ok none
scalar_one_or_none (a ∷ []) = ok (some a)
scalar_one_or_none (a ∷ b ∷ rest) = err multiple_results_found

-- Events have no key of their own beside the engine's counter, so their insertion never clashes.
abbrev pub no_clash : JobEventRow → JobEventRow → Bool
no_clash a b = false

module _ (e : Engine) where
  unfoldable pub attempts_of : Database → String → Result ℕ
  unfolding scalar_one
  attempts_of db id = scalar_one (map (λ (r : JobRow). r.attempts) (e.select (has_id id) db.jobs))

  -- `s.add(JobEventRow(…))` and the commit.
  unfoldable pub append_event : Database → JobEventRow → Result Database
  append_event db ev = elim (e.insert no_clash ev db.events) [
    | none ↦ err integrity_error
    | some events ↦ ok (record db { events = events })
  ]

  unfoldable pub record_event :
      Database → String → EventState → Option String → Dict → ℕ → Result Database
  unfolding attempts_of append_event
  record_event db id st worker detail now = elim (attempts_of db id) [
    | err f ↦ err f
    | ok n ↦ append_event db (record {
      job_id = id;
      state = st;
      attempt = n;
      worker_id = worker;
      detail = detail;
      created_at = now;
    })
  ]

  -- The compare-and-set: false when the job is not in `src`. An exception rolls the session back.
  unfoldable pub transition :
      Database
      → ℕ
      → String
      → JobState
      → JobState
      → Dict
      → Option String
      → Fields
      → Result (Database × Bool)
  transition db now id src dst detail worker fields =
      if check_transition src dst
      then (if e.rowcount (in_state id src) db.jobs == 1
          then (elim (record_event
              (record db { jobs = e.update (in_state id src) (moved dst now fields) db.jobs }) id
              (entered dst) worker detail now) [ err f ↦ err f | ok db' ↦ ok (db', true) ])
          else ok (
            record db { jobs = e.update (in_state id src) (moved dst now fields) db.jobs },
            false,
          ))
      else err (illegal_transition src dst)

  unfoldable pub add_event : Database → ℕ → String → String → Dict → Option String → Result Database
  unfolding record_event
  add_event db now id st detail worker = record_event db id (reported st) worker detail now

  unfoldable pub get_job : Database → String → Result (Option JobRow)
  unfolding scalar_one_or_none
  get_job db id = scalar_one_or_none (e.select (has_id id) db.jobs)

  unfoldable pub events : Database → String → List JobEventRow
  events db id = e.select (λ ev. str_eq ev.job_id id) db.events
