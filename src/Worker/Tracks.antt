-- ===== src/Worker/Tracks.antt =====
-- While a worker handles a job without interference, `state["cur"]` of apps/worker/main.py is the
-- state of the job's row, up to the stage at which an exception ends the run.
use cad2ml.Prelude.{
  ℕ, ◌≡◌, ◌⊎◌, inl, inr, List, [], ◌∷◌, Option, none, some, String, true, Bool-cases,
}
use cad2ml.Jobs.States.{JobState, check_transition, same}
use cad2ml.Jobs.Engine.{Engine}
use cad2ml.Jobs.Queue.{Client}
use cad2ml.Jobs.Exec.{World, pure, on_db, ◌>>=◌, ◌>>◌, resume}
use cad2ml.Jobs.Db.{
  Database, Dict, Fields, no_fields, illegal_transition, Result, ok, err, reported, add_event,
}
use cad2ml.Jobs.Db.Cas.{record_event_located, transition_refused}
use cad2ml.Jobs.Service.{move}
use cad2ml.Jobs.Service.Moves.{At, move-At}
use cad2ml.Worker.{note_stage, enter, progress, progress_all, stage_state, is_noted, stage_event}

module _ (e : Engine) (c : Client) (now : ℕ) (id : String) (src dst : JobState) (detail : Dict)
    (worker : Option String) (fields : Fields) {n m : ℕ} where
  -- From the job's state a move either succeeds, or raises and changes nothing.
  pub move_cases :
      (w : World c)
      → At id src n m w.db
      → (move e c now id src dst detail worker fields w ≡ (w, err (illegal_transition src dst)))
        ⊎ ((db' : Database) × (move e c now id src dst detail worker fields w
              ≡ (record w { db = db' }, ok true))
            × At id dst n m db')
  unfolding on_db
  move_cases w a = elim (Bool-cases (check_transition src dst)) [
    | inl h ↦ inr (unfold on_db in move-At e c now id src dst detail worker fields w a h)
    | inr h ↦ inl (rw (transition_refused e w.db now id src dst detail worker fields h))
  ]

-- What is known of the row after a run that returns the current state, or raises.
abbrev pub Tracked : {c : Client} → String → ℕ → ℕ → World c × Result JobState → Type 0
Tracked id n m (w, ok cur) = At id cur n m w.db
Tracked id n m (w, err x) = (s : JobState) × At id s n m w.db

module _ (e : Engine) (c : Client) (worker : String) (now : ℕ) (id : String) {n m : ℕ} where
  note_event-At :
      (t : String) (info : Dict) (w : World c) (cur : JobState)
      → At id cur n m w.db
      → (db' : Database) × (add_event e w.db now id t info (some worker) ≡ ok db')
        × At id cur n m db'
  unfolding add_event
  note_event-At t info w cur a = (
    _,
    record_event_located e id w.db a.row (reported t) (some worker) info now,
    record {
      unique = a.unique;
      row = a.row;
      state = a.state;
      attempts = a.attempts;
      max_attempts = a.max_attempts;
    },
  )

  note_stage-Tracked :
      (cur : JobState) (stage : String) (info : Dict) (w : World c)
      → At id cur n m w.db
      → Tracked {c = c} id n m (note_stage e c worker now id cur stage info w)
  unfolding note_stage on_db pure ◌>>=◌ ◌>>◌
  note_stage-Tracked cur stage info w a = elim (Bool-cases (is_noted stage)) [
    | inl t ↦ let (db', p, a') = note_event-At (stage_event stage) info w cur a in rw (t, p) a'
    | inr t ↦ rw t a
  ]

  enter-Tracked :
      (t : Option JobState) (cur : JobState) (stage : String) (info : Dict) (w : World c)
      → At id cur n m w.db
      → Tracked {c = c} id n m (enter e c worker now t id cur stage info w)
  unfolding enter pure ◌>>=◌ ◌>>◌
  enter-Tracked none cur stage info w a = note_stage-Tracked cur stage info w a
  enter-Tracked (some target) cur stage info w a = elim (Bool-cases (same target cur)) [
    | inl t ↦ rw t (note_stage-Tracked cur stage info w a)
    | inr t ↦ elim (move_cases e c now id cur target info (some worker) no_fields w a) [
      | inl p ↦ rw (t, p) (cur, a)
      | inr (db', p, a') ↦ rw (t, p) a'
    ]
  ]

  resume-Tracked :
      (stages : List (String × Dict)) (w : World c) (r : Result JobState)
      → ((cur : JobState)
          → At id cur n m w.db
          → Tracked {c = c} id n m (progress_all e c worker now id cur stages w))
      → Tracked {c = c} id n m (w, r)
      → Tracked {c = c} id n m (resume (λ cur. progress_all e c worker now id cur stages) r w)
  unfolding resume
  resume-Tracked stages w (ok cur) k a = k cur a
  resume-Tracked stages w (err x) k a = a

  -- Whatever stages are reported, in whatever order, to a worker whose state is that of the row: when
  -- the reports return, its state is that of the row again; when they raise, the row is still there,
  -- in some state. The counters of the row stay.
  pub progress_all-Tracked :
      (cur : JobState) (stages : List (String × Dict)) (w : World c)
      → At id cur n m w.db
      → Tracked {c = c} id n m (progress_all e c worker now id cur stages w)
  unfolding progress_all progress pure ◌>>=◌
  progress_all-Tracked cur [] w a = a
  progress_all-Tracked cur ((stage, info) ∷ rest) w a =
      let first : World c × Result JobState =
        enter e c worker now (stage_state stage) id cur stage info w in
      resume-Tracked rest first.0 first.1 (λ cur' a'. progress_all-Tracked cur' rest first.0 a')
        (enter-Tracked (stage_state stage) cur stage info w a)
