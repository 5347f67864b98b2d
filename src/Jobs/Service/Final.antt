-- ===== src/Jobs/Service/Final.antt =====
-- Terminal states are final: no session of the API, of a worker or of the reaper moves such a job.
use cad2ml.Prelude.{
  ℕ, ◌≡◌, refl, ap, sym, ◌∙◌, inl, inr, Bool, List, [], ◌∷◌, ◌++◌, Option, none, some, String, true,
  Bool-cases, arith, str_eq, if◌then◌else◌, map_where, eq_iff,
}
use cad2ml.Jobs.States.{JobState, queued, same→eq, check_transition, is_terminal}
use cad2ml.Jobs.States.Runs.{terminal-no-target}
use cad2ml.Jobs.Engine.{Engine}
use cad2ml.Jobs.Db.{
  JobRow, Database, Dict, Fields, ok, has_id, moved, transition, add_event, reported,
}
use cad2ml.Jobs.Db.Rows.{Fresh, Located, locate}
use cad2ml.Jobs.Db.Cas.{
  Cas, refused, missed, won, transition-Cas, record_event_located, record_event-Fresh,
}
use cad2ml.Jobs.Db.History.{IsConsistent}
use cad2ml.Jobs.Service.{new_job, insert_job, claim, claimed, heartbeat, extend_lease}
use cad2ml.Jobs.Service.Claim.{Claims, lost, gained, claim_cases}
use cad2ml.Jobs.Service.Invariant.{is_refused, insert_job-refused, insert_job-new, ok_eq}
use cad2ml.Jobs.Service.System.{
  Step, Reach, here, next, submits, moves, claims, beats, notes, registers, register_file-jobs,
  Reach-IsConsistent,
}

-- The state column of the row with an id.
unfoldable pub state_at : String → List JobRow → Option JobState
state_at k [] = none
state_at k (r ∷ rows) = if has_id k r then some r.state else state_at k rows

-- Replacing the row of `id` by one with the same id changes the state at `id` alone.
state_at-replace :
    (k id : String) (xs : List JobRow) (r s : JobRow) (ys : List JobRow)
    → has_id id r ≡ true
    → s.job_id ≡ r.job_id
    → Fresh id xs
    → state_at k (xs ++ s ∷ ys) ≡ (if str_eq id k then some s.state else state_at k (xs ++ r ∷ ys))
unfolding state_at
state_at-replace k id [] r s ys h same_id f =
    ground (arith, eq_iff r.job_id id, eq_iff id k, eq_iff r.job_id k)
state_at-replace k id (x ∷ xs) r s ys h same_id f = ground (
  arith,
  state_at-replace k id xs r s ys h same_id f.1,
  eq_iff x.job_id id,
  eq_iff id k,
  eq_iff x.job_id k,
)

state_at-row :
    (k id : String) (xs : List JobRow) (r : JobRow) (ys : List JobRow)
    → has_id id r ≡ true
    → Fresh id xs
    → str_eq id k ≡ true
    → state_at k (xs ++ r ∷ ys) ≡ some r.state
unfolding state_at
state_at-row k id [] r ys h f q = ground (arith, eq_iff r.job_id id, eq_iff id k, eq_iff r.job_id k)
state_at-row k id (x ∷ xs) r ys h f q =
    ground
      (arith, state_at-row k id xs r ys h f.1 q, eq_iff x.job_id id, eq_iff id k, eq_iff x.job_id k)

state_at-append :
    (k : String) (rows : List JobRow) (r : JobRow) (s : JobState)
    → state_at k rows ≡ some s
    → state_at k (rows ++ r ∷ []) ≡ some s
unfolding state_at
state_at-append k [] r s h = cc
state_at-append k (x ∷ xs) r s h = ground (arith, state_at-append k xs r s)

state_at-map_where :
    (k : String) (p : JobRow → Bool) (g : JobRow → JobRow)
    → ((r : JobRow) → (g r).job_id ≡ r.job_id)
    → ((r : JobRow) → (g r).state ≡ r.state)
    → (rows : List JobRow) → state_at k (map_where p g rows) ≡ state_at k rows
unfolding state_at
state_at-map_where k p g ids states [] = refl
state_at-map_where k p g ids states (x ∷ xs) = elim (Bool-cases (p x)) [
  | inl t ↦ rw (t, ids x, states x, state_at-map_where k p g ids states xs)
  | inr t ↦ rw (t, state_at-map_where k p g ids states xs)
]

-- A legal move of a row leaves every terminal state where it is.
move_final :
    (k id : String) (rows : List JobRow) (l : Located id rows) (row : JobRow) (s : JobState)
    → row.job_id ≡ l.row.job_id
    → check_transition l.row.state row.state ≡ true
    → state_at k rows ≡ some s
    → is_terminal s ≡ true
    → state_at k (l.before ++ row ∷ l.after) ≡ some s
move_final k id rows l row s same_id legal at_k final =
    rw (state_at-replace k id l.before l.row row l.after l.found same_id l.before_fresh)
      (elim (Bool-cases (str_eq id k)) [
        | inl q ↦
            let was : some l.row.state ≡ some s =
              sym (state_at-row k id l.before l.row l.after l.found l.before_fresh q)
              ∙ rw (← l.split) at_k in
            absurd (stuck (some_eq was))
        | inr q ↦ rw (q, ← l.split) at_k
      ])
  where
    some_eq : {a b : JobState} → some a ≡ some b → a ≡ b
    some_eq h = cc

    stuck : l.row.state ≡ s → ⊥
    stuck h = cc ((terminal-no-target s).0 final row.state, h, legal)

module _ (e : Engine) (k : String) (s : JobState) (final : is_terminal s ≡ true) where
  abbrev Rests : Database → Type 0
  Rests db = state_at k db.jobs ≡ some s

  transition-final :
      (db db' : Database) (now : ℕ) (id : String) (src dst : JobState) (detail : Dict)
      (worker : Option String) (fields : Fields) (b : Bool)
      → IsConsistent db
      → Rests db
      → transition e db now id src dst detail worker fields ≡ ok (db', b)
      → Rests db'
  unfolding moved
  transition-final db db' now id src dst detail worker fields b c h returned =
      go (transition-Cas e db now id src dst detail worker fields c.unique)
    where
      go :
          Cas e db now id src dst detail worker fields
            (transition e db now id src dst detail worker fields)
          → Rests db'
      go (refused x q) = cc
      go (missed x n q) = rw (ap (λ (x : Database × Bool). x.0) (ok_eq (sym returned ∙ q))) h
      go (won x l m q) = rw (ap (λ (x : Database × Bool). x.0) (ok_eq (sym returned ∙ q))) (
          move_final k id db.jobs l (moved dst now fields l.row) s refl
            (rw (same→eq l.row.state src m) x) h final)

  claim-final :
      (db db' : Database) (now : ℕ) (id worker : String) (lease_s : ℕ) (first : JobState)
      (job : Option JobRow)
      → IsConsistent db
      → Rests db
      → check_transition queued first ≡ true
      → claim e db now id worker lease_s first ≡ ok (db', job)
      → Rests db'
  unfolding claimed
  claim-final db db' now id worker lease_s first job c h legal returned =
      go (claim_cases e db now id worker lease_s first c.unique)
    where
      go :
          Claims e db now id worker lease_s first (claim e db now id worker lease_s first)
          → Rests db'
      go (lost n q) = rw (ap (λ (x : Database × Option JobRow). x.0) (ok_eq (sym returned ∙ q))) h
      go (gained l m q) =
          rw (ap (λ (x : Database × Option JobRow). x.0) (ok_eq (sym returned ∙ q))) (
            move_final k id db.jobs l (claimed first worker now lease_s l.row) s refl
              (rw (same→eq l.row.state queued m) legal) h final)

  insert-final :
      (job : JobRow) (now : ℕ) (db db' : Database) (b : Bool)
      → Rests db
      → insert_job e job now db ≡ ok (db', b)
      → Rests db'
  insert-final job now db db' b h returned = elim (Bool-cases (is_refused job db)) [
    | inl t ↦
        rw
          (ap (λ (x : Database × Bool). x.0)
            (ok_eq (sym returned ∙ insert_job-refused e job now db t)))
          h
    | inr t ↦
        rw
          (ap (λ (x : Database × Bool). x.0) (ok_eq (sym returned ∙ insert_job-new e job now db t)))
          (state_at-append k db.jobs job s h)
  ]

  extend-final :
      (now : ℕ) (worker : String) (job_id : Option String) (lease_s : ℕ) (rows : List JobRow)
      → state_at k (extend_lease e now worker job_id lease_s rows) ≡ state_at k rows
  unfolding extend_lease
  extend-final now worker none lease_s rows = refl
  extend-final now worker (some id) lease_s rows = elim (Bool-cases (str_eq id "")) [
    | inl t ↦ rw t
    | inr t ↦ rw (t, e.update_lem _ _ rows) (state_at-map_where k _ _ (λ r. refl) (λ r. refl) rows)
  ]

  heartbeat-jobs :
      (db db' : Database) (now : ℕ) (worker : String) (job_id : Option String) (lease_s : ℕ)
      → heartbeat e db now worker job_id lease_s ≡ ok (db', tt)
      → db'.jobs ≡ extend_lease e now worker job_id lease_s db.jobs
  unfolding heartbeat
  heartbeat-jobs db db' now worker job_id lease_s q = ground arith

  add_event-jobs :
      (db db' : Database) (now : ℕ) (id t : String) (detail : Dict) (worker : Option String)
      → IsConsistent db
      → add_event e db now id t detail worker ≡ ok db'
      → db'.jobs ≡ db.jobs
  unfolding add_event
  add_event-jobs db db' now id t detail worker c q = elim (locate id db.jobs c.unique) [
    | inl f ↦ cc (record_event-Fresh e id db f (reported t) worker detail now)
    | inr l ↦
        ap (λ (x : Database). x.jobs)
          (ok_eq (sym q ∙ record_event_located e id db l (reported t) worker detail now))
  ]

  Step-final : {db db' : Database} → Step e db db' → IsConsistent db → Rests db → Rests db'
  Step-final {db} {db'} (submits sub id uuid now b q) c h =
      insert-final (new_job sub id uuid now) now db db' b h q
  Step-final {db} {db'} (moves now id src dst detail worker fields b q) c h =
      transition-final db db' now id src dst detail worker fields b c h q
  Step-final {db} {db'} (claims now id worker lease_s first job legal q) c h =
      claim-final db db' now id worker lease_s first job c h legal q
  Step-final {db} {db'} (beats now worker job_id lease_s q) c h =
      rw
        (
          heartbeat-jobs db db' now worker job_id lease_s q,
          extend-final now worker job_id lease_s db.jobs,
        )
        h
  Step-final {db} {db'} (notes now id t detail worker q) c h =
      rw (add_event-jobs db db' now id t detail worker c q) h
  Step-final {db} {db'} (registers now file_id sha256 filename size key row q) c h =
      rw (register_file-jobs e db db' now file_id sha256 filename size key row q).0 h

  -- In consistent tables a job whose row is in a terminal state stays in it, whatever sessions commit
  -- afterwards in whatever order.
  pub terminal_is_final :
      {db db' : Database} → IsConsistent db → Rests db → Reach e db db' → Rests db'
  terminal_is_final c h here = h
  terminal_is_final c h (next r st) =
      Step-final st (Reach-IsConsistent e r c) (terminal_is_final c h r)
