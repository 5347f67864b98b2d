-- ===== src/Jobs/Db/History.antt =====
-- The events of cad2ml/jobs/db.py as the history of the jobs: each job's events tell a legal run of
-- the state machine that ends in the state of its row.
use mathlib.Core.List.{append_assoc, append-nil}
use text.Mathlib.TextPositions.{eq_refl}
use cad2ml.Prelude.{
  ℕ, ◌≡◌, refl, ap, ◌∙◌, sym, inl, inr, Bool, true, false, List, [], ◌∷◌, ◌++◌, Option, String,
  str_eq, eq_iff, All, All-append, if◌then◌else◌, Bool-cases,
}
use cad2ml.Jobs.States.{JobState, received, same→eq, check_transition}
use cad2ml.Jobs.Engine.{Engine}
use cad2ml.Jobs.Db.{
  JobRow, JobEventRow, EventState, entered, reported, Database, Dict, Fields, ok, moved, transition,
  add_event,
}
use cad2ml.Jobs.Db.Rows.{Fresh, Distinct, Located, locate}
use cad2ml.Jobs.Db.Cas.{
  Cas, refused, missed, won, transition-Cas, record_event-Fresh, record_event_located,
}

-- The job states in an event's state column.
abbrev pub states_of : EventState → List JobState
states_of (entered s) = s ∷ []
states_of (reported t) = []

abbrev pub entry : String → JobEventRow → List JobState
entry id ev = if str_eq ev.job_id id then states_of ev.state else []

-- The states that the events of a job record, oldest first.
unfoldable pub trail : String → List JobEventRow → List JobState
trail id [] = []
trail id (ev ∷ evs) = entry id ev ++ trail id evs

pub trail-append :
    (id : String) (evs : List JobEventRow) (ev : JobEventRow)
    → trail id (evs ++ ev ∷ []) ≡ trail id evs ++ entry id ev
unfolding trail
trail-append id [] ev = append-nil (entry id ev)
trail-append id (x ∷ xs) ev =
    rw (trail-append id xs ev) (sym (append_assoc (entry id x) (trail id xs) (entry id ev)))

-- A run that starts in `received` and moves by the table of transitions, with its last state.
pub data Follows : List JobState → JobState → Type 0 where
  start : {ss : List JobState} {s : JobState} → s ≡ received → ss ≡ s ∷ [] → Follows ss s
  move :
      {ss ts : List JobState} {s d : JobState}
      → Follows ss s
      → check_transition s d ≡ true
      → ts ≡ ss ++ d ∷ []
      → Follows ts d

pub record IsConsistent (db : Database) : Type 0 where
  pub unique : Distinct db.jobs
  pub followed : All (λ (r : JobRow). Follows (trail r.job_id db.events) r.state) db.jobs
  pub orphans : (id : String) → Fresh id db.jobs → trail id db.events ≡ []

module _ {ℓ} (P : JobRow → Type ℓ) where
  pub All-split :
      (xs : List JobRow) (r : JobRow) (ys : List JobRow)
      → All P (xs ++ r ∷ ys)
      → All P xs × P r × All P ys
  All-split [] r ys h = (tt, h.0, h.1)
  All-split (x ∷ xs) r ys h = let rest = All-split xs r ys h.1 in ((h.0, rest.0), rest.1, rest.2)

  pub All-join :
      (xs : List JobRow) (r : JobRow) (ys : List JobRow)
      → All P xs
      → P r
      → All P ys
      → All P (xs ++ r ∷ ys)
  All-join xs r ys hx hr hy = All-append P xs (r ∷ ys) hx (hr, hy)

-- A row that keeps its id can be replaced under the key.
pub Distinct-replace :
    (xs : List JobRow) (r s : JobRow) (ys : List JobRow)
    → s.job_id ≡ r.job_id
    → Distinct (xs ++ r ∷ ys)
    → Distinct (xs ++ s ∷ ys)
Distinct-replace [] r s ys e d = (rw e d.0, d.1)
Distinct-replace (x ∷ xs) r s ys e d =
    let parts = All-split _ xs r ys d.0 in
    (All-join _ xs s ys parts.0 (rw e parts.1) parts.2, Distinct-replace xs r s ys e d.1)

pub Fresh-replace :
    (k : String) (xs : List JobRow) (r s : JobRow) (ys : List JobRow)
    → s.job_id ≡ r.job_id
    → Fresh k (xs ++ s ∷ ys)
    → Fresh k (xs ++ r ∷ ys)
Fresh-replace k xs r s ys e f =
    let parts = All-split _ xs s ys f in All-join _ xs r ys parts.0 (rw e at parts.1) parts.2

pub str_eq-comm_false : (a b : String) → str_eq a b ≡ false → str_eq b a ≡ false
str_eq-comm_false a b h = elim (Bool-cases (str_eq b a)) [
  | inr e ↦ e
  | inl e ↦ cc ((eq_iff a b).1 (sym ((eq_iff b a).0 e)))
]

pub entry_other :
    (k : String) (ev : JobEventRow) (id : String)
    → ev.job_id ≡ id
    → str_eq k id ≡ false
    → entry k ev ≡ []
entry_other k ev id e h = rw (e, str_eq-comm_false k id h)

-- Rows with another id have the same trail after an event of this id.
pub Follows-others :
    (id : String) (evs : List JobEventRow) (ev : JobEventRow) (rows : List JobRow)
    → ev.job_id ≡ id
    → Fresh id rows
    → All (λ (r : JobRow). Follows (trail r.job_id evs) r.state) rows
    → All (λ (r : JobRow). Follows (trail r.job_id (evs ++ ev ∷ [])) r.state) rows
Follows-others id evs ev [] e f h = tt
Follows-others id evs ev (r ∷ rows) e f h = (
  rw
      (
        trail-append r.job_id evs ev,
        entry_other r.job_id ev id e f.0,
        append-nil (trail r.job_id evs),
      )
      h.0,
  Follows-others id evs ev rows e f.1 h.1,
)

-- Replacing the row of an id and writing one event of that id keeps the histories, when the event
-- continues the run of that id to the state of the new row.
pub replace-IsConsistent :
    (db db' : Database) (id : String) (l : Located id db.jobs) (row : JobRow) (ev : JobEventRow)
    → IsConsistent db
    → row.job_id ≡ l.row.job_id
    → ev.job_id ≡ id
    → Follows (trail id db.events ++ entry id ev) row.state
    → db'.jobs ≡ l.before ++ row ∷ l.after
    → db'.events ≡ db.events ++ ev ∷ []
    → IsConsistent db'
replace-IsConsistent db db' id l row ev c same_id ev_id run jobs events = record {
  unique = rw jobs (Distinct-replace l.before l.row row l.after same_id (rw l.split at c.unique));
  followed =
      rw (jobs, events)
        (All-join _ l.before row l.after (others l.before l.before_fresh olds.0) moved_row
          (others l.after l.after_fresh olds.2));
  orphans = λ k f.
      let g : Fresh k (l.before ++ l.row ∷ l.after) =
        Fresh-replace k l.before l.row row l.after same_id (rw jobs at f) in
      rw (events, trail-append k db.events ev, c.orphans k (rw l.split g))
        (entry_other k ev id ev_id (
          rw ((eq_iff l.row.job_id id).0 l.found) at
            (str_eq-comm_false l.row.job_id k (All-split _ l.before l.row l.after g).1)));
}
  where
    row_id : row.job_id ≡ id
    row_id = same_id ∙ (eq_iff l.row.job_id id).0 l.found

    olds :
        All (λ (r : JobRow). Follows (trail r.job_id db.events) r.state) l.before
        × Follows (trail l.row.job_id db.events) l.row.state
        × All (λ (r : JobRow). Follows (trail r.job_id db.events) r.state) l.after
    olds = All-split _ l.before l.row l.after (rw l.split at c.followed)

    others :
        (rows : List JobRow)
        → Fresh id rows
        → All (λ (r : JobRow). Follows (trail r.job_id db.events) r.state) rows
        → All (λ (r : JobRow). Follows (trail r.job_id (db.events ++ ev ∷ [])) r.state) rows
    others rows f h = Follows-others id db.events ev rows ev_id f h

    moved_row : Follows (trail row.job_id (db.events ++ ev ∷ [])) row.state
    moved_row = rw (row_id, trail-append id db.events ev) run

-- The row that an id finds has followed its trail.
pub row-Follows :
    (db : Database) (id : String) (l : Located id db.jobs)
    → IsConsistent db
    → Follows (trail id db.events) l.row.state
row-Follows db id l c =
    rw ((eq_iff l.row.job_id id).0 l.found) at
      (All-split _ l.before l.row l.after (rw l.split at c.followed)).1

pub entry_self :
    (id : String) (ev : JobEventRow) → ev.job_id ≡ id → entry id ev ≡ states_of ev.state
entry_self id ev e = rw (e, eq_refl id)

-- A won compare-and-set, of `transition` and of a claim, extends the history by one legal move.
pub move-IsConsistent :
    (db db' : Database) (id : String) (l : Located id db.jobs) (row : JobRow) (ev : JobEventRow)
    (d : JobState)
    → IsConsistent db
    → check_transition l.row.state d ≡ true
    → row.job_id ≡ l.row.job_id
    → row.state ≡ d
    → ev.job_id ≡ id
    → ev.state ≡ entered d
    → db'.jobs ≡ l.before ++ row ∷ l.after
    → db'.events ≡ db.events ++ ev ∷ []
    → IsConsistent db'
move-IsConsistent db db' id l row ev d c legal same_id st ev_id ev_st jobs events =
    replace-IsConsistent db db' id l row ev c same_id ev_id
      (rw (entry_self id ev ev_id, ev_st, st) (move (row-Follows db id l c) legal refl)) jobs events

module _ (e : Engine) where
  -- Whatever the call and its outcome, a transition that returns keeps the histories legal.
  pub transition-IsConsistent :
      (db : Database) (now : ℕ) (id : String) (src dst : JobState) (detail : Dict)
      (worker : Option String) (fields : Fields) (r : Database × Bool)
      → IsConsistent db
      → transition e db now id src dst detail worker fields ≡ ok r
      → IsConsistent r.0
  unfolding moved
  transition-IsConsistent db now id src dst detail worker fields r c returned =
      go (transition-Cas e db now id src dst detail worker fields c.unique)
    where
      result_eq : {a b : Database × Bool} → ok a ≡ ok b → a ≡ b
      result_eq h = cc

      go :
          Cas e db now id src dst detail worker fields
            (transition e db now id src dst detail worker fields)
          → IsConsistent r.0
      go (refused h q) = cc
      go (missed h n q) = rw (ap (λ (x : Database × Bool). x.0) (result_eq (sym returned ∙ q))) c
      go (won h l m q) = rw (ap (λ (x : Database × Bool). x.0) (result_eq (sym returned ∙ q))) (
          move-IsConsistent db _ id l (moved dst now fields l.row) _ dst c
            (rw (same→eq l.row.state src m) h) refl refl refl refl refl refl)

  -- A progress event leaves the run of states as it is.
  pub add_event-IsConsistent :
      (db : Database) (now : ℕ) (id t : String) (detail : Dict) (worker : Option String)
      (db' : Database)
      → IsConsistent db
      → add_event e db now id t detail worker ≡ ok db'
      → IsConsistent db'
  unfolding add_event
  add_event-IsConsistent db now id t detail worker db' c returned =
      elim (locate id db.jobs c.unique) [
        | inl f ↦ cc (record_event-Fresh e id db f (reported t) worker detail now)
        | inr l ↦
            rw
              (db_eq (sym returned ∙ record_event_located e id db l (reported t) worker detail now))
              (replace-IsConsistent db _ id l l.row _ c refl refl
                (rw (eq_refl id, append-nil (trail id db.events)) (row-Follows db id l c)) l.split
                refl)
      ]
    where
      db_eq : {a b : Database} → ok a ≡ ok b → a ≡ b
      db_eq h = cc
