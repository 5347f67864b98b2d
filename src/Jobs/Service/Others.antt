-- ===== src/Jobs/Service/Others.antt =====
-- The job table under its primary key, row by row, and what a compare-and-set of cad2ml/jobs/db.py leaves as it is.
use text.Mathlib.TextPositions.{eq_refl}
use cad2ml.Prelude.{
  ℕ, ◌≡◌, refl, ap, inl, inr, Bool, true, false, List, [], ◌∷◌, Option, String, str_eq, eq_iff,
  arith, All, All-map, All-zip, All-keep, keep, map_where, Bool-cases,
}
use cad2ml.Jobs.States.{JobState}
use cad2ml.Jobs.Engine.{Engine}
use cad2ml.Jobs.Db.{
  JobRow, Database, Dict, Fields, ok, has_id, in_state, moved, transition, record_event,
  append_event,
}
use cad2ml.Jobs.Db.Rows.{Distinct, Located, locate, keep-Located, keep-Fresh, has_id-Implies}
use cad2ml.Jobs.Db.History.{str_eq-comm_false}

-- Writes to the rows of one id keep the rows of any other.
pub keep_other :
    (id k : String) (src : JobState) (g : JobRow → JobRow)
    → str_eq id k ≡ false
    → ((r : JobRow) → (g r).job_id ≡ r.job_id)
    → (rows : List JobRow)
    → keep (has_id k) (map_where (in_state id src) g rows) ≡ keep (has_id k) rows
unfolding in_state
keep_other id k src g other same_id [] = refl
keep_other id k src g other same_id (r ∷ rows) = elim (Bool-cases (in_state id src r)) [
  | inl t ↦
      let here : str_eq r.job_id id ≡ true = ground arith in
      let apart : str_eq r.job_id k ≡ false = rw ((eq_iff r.job_id id).0 here) other in
      rw (t, same_id r, apart) (keep_other id k src g other same_id rows)
  | inr t ↦ elim (Bool-cases (has_id k r)) [
    | inl q ↦ rw (t, q) (ap (◌∷◌ r) (keep_other id k src g other same_id rows))
    | inr q ↦ rw (t, q) (keep_other id k src g other same_id rows)
  ]
]

pub transition-jobs :
    (e : Engine) (db : Database) (now : ℕ) (id : String) (src dst : JobState) (detail : Dict)
    (worker : Option String) (fields : Fields) (r : Database × Bool)
    → transition e db now id src dst detail worker fields ≡ ok r
    → r.0.jobs ≡ e.update (in_state id src) (moved dst now fields) db.jobs
unfolding transition record_event append_event
transition-jobs e db now id src dst detail worker fields r h = ground arith

-- Each row of a keyed table is the one under its id.
pub own_rows :
    (rows : List JobRow) → Distinct rows → All (λ r. keep (has_id r.job_id) rows ≡ r ∷ []) rows
own_rows [] d = tt
own_rows (r ∷ rows) d = (
  rw (eq_refl r.job_id, keep-Fresh r.job_id (has_id r.job_id) (has_id-Implies r.job_id) rows d.0)
      refl,
  All-map _ _ rows (λ x h. rw (str_eq-comm_false x.job_id r.job_id h.0) h.1)
      (All-zip _ _ rows d.0 (own_rows rows d.1)),
)

pub Distinct-keep :
    (p : JobRow → Bool) (rows : List JobRow) → Distinct rows → Distinct (keep p rows)
Distinct-keep p [] d = tt
Distinct-keep p (r ∷ rows) d = elim (Bool-cases (p r)) [
  | inl t ↦ rw t (All-keep _ p rows d.0, Distinct-keep p rows d.1)
  | inr t ↦ rw t (Distinct-keep p rows d.1)
]

-- The row under an id, in a keyed table.
pub one_row :
    (id : String) (rows : List JobRow) (r : JobRow)
    → Distinct rows
    → keep (has_id id) rows ≡ r ∷ []
    → (l : Located id rows) × (l.row ≡ r)
one_row id rows r d h = elim (locate id rows d) [
  | inl f ↦
      let empty : keep (has_id id) rows ≡ [] =
        keep-Fresh id (has_id id) (has_id-Implies id) rows f in
      let no : ⊥ = cc in absurd no
  | inr l ↦ (l, cc (keep-Located id rows l))
]
