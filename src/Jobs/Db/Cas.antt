-- ===== src/Jobs/Db/Cas.antt =====
-- What `transition` of cad2ml/jobs/db.py does, on every branch, under the primary key of the table.
use cad2ml.Prelude.{
  if◌then◌else◌, sym, ℕ, ◌≡◌, refl, false, List, [], ◌∷◌, ◌++◌, Option, String, any, Bool-cases,
  inr, ap, inl,
}
use cad2ml.Jobs.Engine.{Engine}
use cad2ml.Jobs.Db.{
  JobRow, JobEventRow, EventState, Database, Dict, ok, has_id, attempts_of, append_event,
  record_event, no_clash, JobState, Fields, transition, moved, Result, check_transition, true, Bool,
  err, entered, same, in_state, illegal_transition, scalar_one, no_result_found,
}
use cad2ml.Jobs.Db.Rows.{
  count_where-Located, map_where-Located, replaced, keep-Located, Distinct, locate,
  Fresh-not-Located, Located-row, Located, Fresh, count_where-Fresh, in_state-Implies,
  map_where-Fresh, keep-Fresh, has_id-Implies,
}

-- The event that a move of the row writes.
abbrev pub event_of : JobRow → EventState → Option String → Dict → ℕ → JobEventRow
event_of r st worker detail now = record {
  job_id = r.job_id;
  state = st;
  attempt = r.attempts;
  worker_id = worker;
  detail = detail;
  created_at = now;
}

never_clashes : (ev : JobEventRow) (evs : List JobEventRow) → any (no_clash ev) evs ≡ false
never_clashes ev [] = refl
never_clashes ev (x ∷ xs) = never_clashes ev xs

module _ (e : Engine) (id : String) where
  pub append_event_lem :
      (db : Database) (ev : JobEventRow)
      → append_event e db ev ≡ ok (record db { events = db.events ++ ev ∷ [] })
  unfolding append_event
  append_event_lem db ev =
      rw (e.insert_lem no_clash ev db.events, never_clashes ev db.events, append_event)

  attempts_located :
      (db : Database) (l : Located id db.jobs) → attempts_of e db id ≡ ok l.row.attempts
  unfolding attempts_of
  attempts_located db l =
      rw (e.select_lem (has_id id) db.jobs, keep-Located id db.jobs l, attempts_of)

  -- With the job's row at hand, an event gets the row's attempts.
  pub record_event_located :
      (db : Database) (l : Located id db.jobs) (st : EventState) (worker : Option String)
      (detail : Dict) (now : ℕ)
      → record_event e db id st worker detail now
        ≡ ok (record db {
          events =
              db.events
              ++ record {
                job_id = id;
                state = st;
                attempt = l.row.attempts;
                worker_id = worker;
                detail = detail;
                created_at = now;
              }
                ∷ [];
        })
  unfolding record_event
  record_event_located db l st worker detail now =
      rw (attempts_located db l, record_event) (append_event_lem _ _)

  pub record_event-Fresh :
      (db : Database)
      → Fresh id db.jobs
      → (st : EventState) (worker : Option String) (detail : Dict) (now : ℕ)
      → record_event e db id st worker detail now ≡ err no_result_found
  unfolding record_event attempts_of scalar_one
  record_event-Fresh db f st worker detail now = rw (
    e.select_lem (has_id id) db.jobs,
    keep-Fresh id (has_id id) (has_id-Implies id) db.jobs f,
    record_event,
    attempts_of,
  )

-- The database after a won compare-and-set: one row is moved, and one event is written.
abbrev pub after_move :
    (db : Database) (id : String)
    → Located id db.jobs
    → ℕ
    → JobState
    → Dict
    → Option String
    → Fields
    → Database
after_move db id l now dst detail worker fields = record db {
  jobs = l.before ++ moved dst now fields l.row ∷ l.after;
  events =
      db.events
      ++ record {
        job_id = id;
        state = entered dst;
        attempt = l.row.attempts;
        worker_id = worker;
        detail = detail;
        created_at = now;
      }
        ∷ [];
}

module _ (e : Engine) (db : Database) (now : ℕ) (id : String) (src dst : JobState) (detail : Dict)
    (worker : Option String) (fields : Fields) where
  -- The three outcomes of a call, with the condition of each.
  pub data Cas : Result (Database × Bool) → Type 0 where
    refused :
        {r : Result (Database × Bool)}
        → check_transition src dst ≡ false
        → r ≡ err (illegal_transition src dst)
        → Cas r
    missed :
        {r : Result (Database × Bool)}
        → check_transition src dst ≡ true
        → ((l : Located id db.jobs) → same l.row.state src ≡ false)
        → r ≡ ok (db, false)
        → Cas r
    won :
        {r : Result (Database × Bool)}
        → check_transition src dst ≡ true
        → (l : Located id db.jobs) → same l.row.state src ≡ true
        → r ≡ ok (after_move db id l now dst detail worker fields, true)
        → Cas r

  pub transition_refused :
      check_transition src dst ≡ false
      → transition e db now id src dst detail worker fields ≡ err (illegal_transition src dst)
  unfolding transition
  transition_refused h = rw (h, transition)

  transition-Fresh :
      check_transition src dst ≡ true
      → Fresh id db.jobs
      → transition e db now id src dst detail worker fields ≡ ok (db, false)
  unfolding transition
  transition-Fresh h f = rw (
    h,
    e.rowcount_lem (in_state id src) db.jobs,
    count_where-Fresh id (in_state id src) (in_state-Implies id src) db.jobs f,
    e.update_lem (in_state id src) (moved dst now fields) db.jobs,
    map_where-Fresh id (in_state id src) (in_state-Implies id src) (moved dst now fields) db.jobs f,
    transition,
  )

  module _ (h : check_transition src dst ≡ true) (l : Located id db.jobs) where
    count_located : e.rowcount (in_state id src) db.jobs ≡ (if same l.row.state src then 1 else 0)
    count_located =
        rw (e.rowcount_lem (in_state id src) db.jobs) (count_where-Located id db.jobs l src)

    update_located :
        e.update (in_state id src) (moved dst now fields) db.jobs
        ≡ l.before ++ (if same l.row.state src then moved dst now fields l.row else l.row) ∷ l.after
    update_located =
        rw (e.update_lem (in_state id src) (moved dst now fields) db.jobs)
          (map_where-Located id db.jobs l src (moved dst now fields))

    transition_missed :
        same l.row.state src ≡ false
        → transition e db now id src dst detail worker fields ≡ ok (db, false)
    unfolding transition
    transition_missed m =
        rw (h, count_located, update_located, m, transition)
          (ap (λ js. ok (record db { jobs = js }, false)) (sym l.split))

    moved_located : Located id (l.before ++ moved dst now fields l.row ∷ l.after)
    unfolding moved
    moved_located = replaced id db.jobs l (moved dst now fields l.row) refl

    attempts-moved : moved_located.row.attempts ≡ l.row.attempts
    unfolding moved moved_located replaced
    attempts-moved = refl

    pub transition_won :
        same l.row.state src ≡ true
        → transition e db now id src dst detail worker fields
          ≡ ok (after_move db id l now dst detail worker fields, true)
    unfolding transition
    transition_won m = rw (
      h,
      count_located,
      update_located,
      m,
      record_event_located e id
          (record db { jobs = l.before ++ moved dst now fields l.row ∷ l.after }) moved_located
          (entered dst) worker detail now,
      attempts-moved,
      transition,
    )

  -- Under the primary key a call is refused exactly when the table of transitions lacks the move,
  -- changes nothing when no row with the id is in `src`, and otherwise moves that one row and
  -- writes one event with its attempts.
  pub transition-Cas : Distinct db.jobs → Cas (transition e db now id src dst detail worker fields)
  transition-Cas d = elim (Bool-cases (check_transition src dst)) [
    | inr h ↦ refused h (transition_refused h)
    | inl h ↦ elim (locate id db.jobs d) [
      | inl f ↦ missed h (λ l. absurd (Fresh-not-Located id db.jobs f l)) (transition-Fresh h f)
      | inr l ↦ elim (Bool-cases (same l.row.state src)) [
        | inl m ↦ won h l m (transition_won h l m)
        | inr m ↦ missed h (λ k. rw (Located-row id db.jobs k l) m) (transition_missed h l m)
      ]
    ]
  ]
