-- ===== src/Jobs/Service/System.antt =====
-- The API, the workers and the reaper side by side: each session commits by itself, and sessions
-- interleave freely. A step is one committed session of cad2ml/jobs/db.py and cad2ml/jobs/service.py.
use cad2ml.Prelude.{ℕ, ◌≡◌, refl, Bool, [], Option, String, true, arith}
use cad2ml.Jobs.States.{JobState, queued, check_transition}
use cad2ml.Jobs.Engine.{Engine}
use cad2ml.Jobs.Db.{
  FileRow, JobRow, Database, Dict, Fields, Result, ok, err, transition, add_event,
  scalar_one_or_none,
}
use cad2ml.Jobs.Db.History.{IsConsistent, transition-IsConsistent, add_event-IsConsistent}
use cad2ml.Jobs.Service.{Submission, new_job, insert_job, claim, heartbeat, register_file}
use cad2ml.Jobs.Service.Invariant.{insert_job-IsConsistent, claim-IsConsistent}
use cad2ml.Jobs.Service.Keeping.{heartbeat-IsConsistent}

module _ (e : Engine) where
  pub data Step (db db' : Database) : Type 0 where
    submits :
        (s : Submission) (id uuid : String) (now : ℕ) (b : Bool)
        → insert_job e (new_job s id uuid now) now db ≡ ok (db', b)
        → Step db db'
    moves :
        (now : ℕ) (id : String) (src dst : JobState) (detail : Dict) (worker : Option String)
        (fields : Fields) (b : Bool)
        → transition e db now id src dst detail worker fields ≡ ok (db', b)
        → Step db db'
    claims :
        (now : ℕ) (id worker : String) (lease_s : ℕ) (first : JobState) (job : Option JobRow)
        → check_transition queued first ≡ true
        → claim e db now id worker lease_s first ≡ ok (db', job)
        → Step db db'
    beats :
        (now : ℕ) (worker : String) (job_id : Option String) (lease_s : ℕ)
        → heartbeat e db now worker job_id lease_s ≡ ok (db', tt)
        → Step db db'
    notes :
        (now : ℕ) (id stage : String) (detail : Dict) (worker : Option String)
        → add_event e db now id stage detail worker ≡ ok db'
        → Step db db'
    registers :
        (now : ℕ) (file_id sha256 filename : String) (size : ℕ) (key : String)
        (row : FileRow × Bool)
        → register_file e db now file_id sha256 filename size key ≡ ok (db', row)
        → Step db db'

  pub data Reach (db : Database) : Database → Type 0 where
    here : Reach db db
    next : {mid db' : Database} → Reach db mid → Step mid db' → Reach db db'

  -- A registration leaves the job tables as they are.
  pub register_file-jobs :
      (db db' : Database) (now : ℕ) (file_id sha256 filename : String) (size : ℕ) (key : String)
      (row : FileRow × Bool)
      → register_file e db now file_id sha256 filename size key ≡ ok (db', row)
      → (db'.jobs ≡ db.jobs) × (db'.events ≡ db.events)
  unfolding register_file
  register_file-jobs db db' now file_id sha256 filename size key row q = ground arith

  pub Step-IsConsistent : {db db' : Database} → Step db db' → IsConsistent db → IsConsistent db'
  unfolding new_job
  Step-IsConsistent {db} (submits s id uuid now b q) h =
      insert_job-IsConsistent e (new_job s id uuid now) now db h refl _ q
  Step-IsConsistent {db} (moves now id src dst detail worker fields b q) h =
      transition-IsConsistent e db now id src dst detail worker fields _ h q
  Step-IsConsistent {db} (claims now id worker lease_s first job legal q) h =
      claim-IsConsistent e db now id worker lease_s first _ h legal q
  Step-IsConsistent {db} (beats now worker job_id lease_s q) h =
      heartbeat-IsConsistent e db now worker job_id lease_s h _ q
  Step-IsConsistent {db} (notes now id stage detail worker q) h =
      add_event-IsConsistent e db now id stage detail worker _ h q
  Step-IsConsistent {db} {db'} (registers now file_id sha256 filename size key row q) h =
      let s = register_file-jobs db db' now file_id sha256 filename size key row q in
      record {
        unique = rw s.0 h.unique;
        followed = rw (s.0, s.1) h.followed;
        orphans = λ k f. rw s.1 (h.orphans k (rw s.0 at f));
      }

  pub Reach-IsConsistent : {db db' : Database} → Reach db db' → IsConsistent db → IsConsistent db'
  Reach-IsConsistent here h = h
  Reach-IsConsistent (next r s) h = Step-IsConsistent s (Reach-IsConsistent r h)

abbrev pub empty_db : Database
empty_db = record { files = []; jobs = []; events = []; workers = [] }

empty_db-IsConsistent : IsConsistent empty_db
unfolding cad2ml.Jobs.Db.History.trail
empty_db-IsConsistent = record { unique = tt; followed = tt; orphans = λ id f. refl }

-- From empty tables, whatever sessions commit in whatever order, job ids stay unique and the events
-- of each job tell a run from `received`, by the table of transitions, to the state of its row.
pub system-IsConsistent : (e : Engine) {db : Database} → Reach e empty_db db → IsConsistent db
system-IsConsistent e r = Reach-IsConsistent e r empty_db-IsConsistent
