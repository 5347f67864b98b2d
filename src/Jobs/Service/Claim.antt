-- ===== src/Jobs/Service/Claim.antt =====
-- What `claim` of cad2ml/jobs/service.py does: the compare-and-set that makes duplicate deliveries
-- harmless.
use cad2ml.Prelude.{
  ℕ, ◌≡◌, refl, ap, sym, inl, inr, true, false, [], ◌∷◌, ◌++◌, Option, none, some, String,
  Bool-cases, ◌∙◌,
}
use cad2ml.Jobs.States.{JobState, queued, same}
use cad2ml.Jobs.Engine.{Engine}
use cad2ml.Jobs.Db.{JobRow, Database, Result, ok, entered, flag, in_state, has_id, get_job}
use cad2ml.Jobs.Db.Rows.{
  Fresh, Distinct, Located, locate, Fresh-not-Located, Located-row, count_where-Located,
  map_where-Located, count_where-Fresh, map_where-Fresh, in_state-Implies, has_id-Implies,
  keep-Located, keep-Fresh, replaced,
}
use cad2ml.Jobs.Db.Cas.{append_event_lem}
use cad2ml.Jobs.Service.{claim, claim_row, claimed}

module _ (e : Engine) (id : String) (db : Database) where
  pub get_job-Located : (l : Located id db.jobs) → get_job e db id ≡ ok (some l.row)
  unfolding get_job
  get_job-Located l = rw (e.select_lem (has_id id) db.jobs, keep-Located id db.jobs l)

  pub get_job-Fresh : Fresh id db.jobs → get_job e db id ≡ ok none
  unfolding get_job
  get_job-Fresh f =
      rw (e.select_lem (has_id id) db.jobs, keep-Fresh id (has_id id) (has_id-Implies id) db.jobs f)

  claim_row_located :
      (l : Located id db.jobs) (now : ℕ) (worker : String) (first : JobState)
      → claim_row e db now id worker first
        ≡ ok (
          record db {
            events =
                db.events
                ++ record {
                  job_id = id;
                  state = entered first;
                  attempt = l.row.attempts;
                  worker_id = some worker;
                  detail = ("claimed", flag true) ∷ [];
                  created_at = now;
                }
                  ∷ [];
          },
          some l.row,
        )
  unfolding claim_row
  claim_row_located l now worker first =
      rw (get_job-Located l, append_event_lem e id db _, claim_row)

-- The database after a won claim.
abbrev pub after_claim :
    (db : Database) (id : String) → Located id db.jobs → ℕ → String → ℕ → JobState → Database
after_claim db id l now worker lease_s first = record db {
  jobs = l.before ++ claimed first worker now lease_s l.row ∷ l.after;
  events =
      db.events
      ++ record {
        job_id = id;
        state = entered first;
        attempt = (claimed first worker now lease_s l.row).attempts;
        worker_id = some worker;
        detail = ("claimed", flag true) ∷ [];
        created_at = now;
      }
        ∷ [];
}

module _ (e : Engine) (db : Database) (now : ℕ) (id worker : String) (lease_s : ℕ)
    (first : JobState) where
  pub data Claims : Result (Database × Option JobRow) → Type 0 where
    lost :
        {r : Result (Database × Option JobRow)}
        → ((l : Located id db.jobs) → same l.row.state queued ≡ false)
        → r ≡ ok (db, none)
        → Claims r
    gained :
        {r : Result (Database × Option JobRow)}
        → (l : Located id db.jobs) → same l.row.state queued ≡ true
        → r
          ≡ ok (
            after_claim db id l now worker lease_s first,
            some (claimed first worker now lease_s l.row),
          )
        → Claims r

  claim-Fresh : Fresh id db.jobs → claim e db now id worker lease_s first ≡ ok (db, none)
  unfolding claim
  claim-Fresh f = rw (
    e.rowcount_lem (in_state id queued) db.jobs,
    count_where-Fresh id (in_state id queued) (in_state-Implies id queued) db.jobs f,
    e.update_lem (in_state id queued) (claimed first worker now lease_s) db.jobs,
    map_where-Fresh id (in_state id queued) (in_state-Implies id queued)
        (claimed first worker now lease_s) db.jobs f,
    claim,
  )

  module _ (l : Located id db.jobs) where
    claim_missed :
        same l.row.state queued ≡ false → claim e db now id worker lease_s first ≡ ok (db, none)
    unfolding claim
    claim_missed m =
        rw
          (
            e.rowcount_lem (in_state id queued) db.jobs,
            count_where-Located id db.jobs l queued,
            e.update_lem (in_state id queued) (claimed first worker now lease_s) db.jobs,
            map_where-Located id db.jobs l queued (claimed first worker now lease_s),
            m,
            claim,
          )
          (ap (λ js. ok (record db { jobs = js }, none)) (sym l.split))

    pub row_claimed : Located id (l.before ++ claimed first worker now lease_s l.row ∷ l.after)
    unfolding claimed
    row_claimed = replaced id db.jobs l (claimed first worker now lease_s l.row) refl

    row_claimed_lem : row_claimed.row ≡ claimed first worker now lease_s l.row
    unfolding row_claimed replaced
    row_claimed_lem = refl

    claim_gained :
        same l.row.state queued ≡ true
        → claim e db now id worker lease_s first
          ≡ ok (
            after_claim db id l now worker lease_s first,
            some (claimed first worker now lease_s l.row),
          )
    unfolding claim
    claim_gained m = rw (
      e.rowcount_lem (in_state id queued) db.jobs,
      count_where-Located id db.jobs l queued,
      e.update_lem (in_state id queued) (claimed first worker now lease_s) db.jobs,
      map_where-Located id db.jobs l queued (claimed first worker now lease_s),
      m,
      claim_row_located e id
          (record db { jobs = l.before ++ claimed first worker now lease_s l.row ∷ l.after })
          row_claimed now worker first,
      row_claimed_lem,
      claim,
    )

  -- A claim takes the job exactly when its row is queued; otherwise nothing changes.
  pub claim_cases : Distinct db.jobs → Claims (claim e db now id worker lease_s first)
  claim_cases d = elim (locate id db.jobs d) [
    | inl f ↦ lost (λ l. absurd (Fresh-not-Located id db.jobs f l)) (claim-Fresh f)
    | inr l ↦ elim (Bool-cases (same l.row.state queued)) [
      | inl m ↦ gained l m (claim_gained l m)
      | inr m ↦ lost (λ k. rw (Located-row id db.jobs k l) m) (claim_missed l m)
    ]
  ]

-- On the tables that a claim has left that took the job into a state other than `queued`, a second
-- claim of it, of whatever worker, finds nothing and changes nothing, if job ids were unique.
pub claim_once :
    (e : Engine) (db db' : Database) (job : JobRow) (now now' : ℕ) (id worker worker' : String)
    (lease_s lease_s' : ℕ) (first first' : JobState)
    → Distinct db.jobs
    → same first queued ≡ false
    → claim e db now id worker lease_s first ≡ ok (db', some job)
    → claim e db' now' id worker' lease_s' first' ≡ ok (db', none)
unfolding claimed
claim_once e db db' job now now' id worker worker' lease_s lease_s' first first' d q returned =
    go (claim_cases e db now id worker lease_s first d)
  where
    state_eq : {a b : Database × Option JobRow} → ok a ≡ ok b → a ≡ b
    state_eq h = cc

    go :
        Claims e db now id worker lease_s first (claim e db now id worker lease_s first)
        → claim e db' now' id worker' lease_s' first' ≡ ok (db', none)
    go (lost n p) = cc
    go (gained l m p) =
        rw (ap (λ (x : Database × Option JobRow). x.0) (state_eq (sym returned ∙ p))) (
          claim_missed e (after_claim db id l now worker lease_s first) now' id worker' lease_s'
            first' (row_claimed e db now id worker lease_s first l)
            (unfold row_claimed replaced in q))
