-- ===== src/Jobs/Service/Moves.antt =====
-- A move of a job that is known to be in the source state, without interference.
use cad2ml.Prelude.{ℕ, ◌≡◌, refl, ap, ◌∙◌, Option, String, true}
use cad2ml.Jobs.States.{JobState, same_refl, check_transition}
use cad2ml.Jobs.Engine.{Engine}
use cad2ml.Jobs.Queue.{Client}
use cad2ml.Jobs.Exec.{World, on_db}
use cad2ml.Jobs.Db.{JobRow, Database, Dict, Fields, ok, moved, transition}
use cad2ml.Jobs.Db.Rows.{Distinct, Located, replaced, Located-row}
use cad2ml.Jobs.Db.Cas.{Cas, refused, missed, won, transition-Cas, after_move}
use cad2ml.Jobs.Db.History.{Distinct-replace}
use cad2ml.Jobs.Service.{move}

-- The job's row is there and in state `s`, with its counters of attempts.
pub record At (id : String) (s : JobState) (n m : ℕ) (db : Database) : Type 0 where
  pub unique : Distinct db.jobs
  pub row : Located id db.jobs
  pub state : row.row.state ≡ s
  pub attempts : row.row.attempts ≡ n
  pub max_attempts : row.row.max_attempts ≡ m

after_move-At :
    (db : Database) (id : String) (l : Located id db.jobs) (now n m : ℕ) (dst : JobState)
    (detail : Dict) (worker : Option String) (fields : Fields)
    → Distinct db.jobs
    → l.row.attempts ≡ n
    → l.row.max_attempts ≡ m
    → At id dst n m (after_move db id l now dst detail worker fields)
unfolding moved replaced
after_move-At db id l now n m dst detail worker fields d a b = record {
  unique =
      Distinct-replace l.before l.row (moved dst now fields l.row) l.after refl (rw l.split at d);
  row = replaced id db.jobs l (moved dst now fields l.row) refl;
  state = refl;
  attempts = a;
  max_attempts = b;
}

module _ (e : Engine) (c : Client) (now : ℕ) (id : String) (src dst : JobState) (detail : Dict)
    (worker : Option String) (fields : Fields) {n m : ℕ} where
  -- A legal move from the state that the job is in succeeds.
  pub move-At :
      (w : World c)
      → At id src n m w.db
      → check_transition src dst ≡ true
      → (db' : Database) × (move e c now id src dst detail worker fields w
          ≡ (record w { db = db' }, ok true))
        × At id dst n m db'
  unfolding on_db
  move-At w a legal = go (transition-Cas e w.db now id src dst detail worker fields a.unique)
    where
      go :
          Cas e w.db now id src dst detail worker fields
            (transition e w.db now id src dst detail worker fields)
          → (db' : Database) × (move e c now id src dst detail worker fields w
              ≡ (record w { db = db' }, ok true))
            × At id dst n m db'
      go (refused x q) = cc
      go (missed x none_in_src q) = cc (none_in_src a.row, same_refl src, a.state)
      go (won x l in_src q) =
          let one = Located-row id w.db.jobs l a.row in
          (
            after_move w.db id l now dst detail worker fields,
            rw q,
            after_move-At w.db id l now n m dst detail worker fields a.unique
                (ap (λ (r : JobRow). r.attempts) one ∙ a.attempts)
                (ap (λ (r : JobRow). r.max_attempts) one ∙ a.max_attempts),
          )
