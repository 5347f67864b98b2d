-- ===== src/Jobs/Service/Invariant.antt =====
-- Every operation of cad2ml/jobs/service.py keeps the job table keyed and the histories legal.
use text.Mathlib.TextPositions.{eq_refl}
use cad2ml.Prelude.{
  not, ◌||◌, ℕ, ◌≡◌, refl, ap, ◌∙◌, sym, inl, inr, Bool, true, false, List, [], ◌∷◌, ◌++◌, Option,
  none, String, Bool-cases, any, All, All-append, map_where, arith,
}
use cad2ml.Jobs.States.{JobState, received, queued, same→eq, check_transition}
use cad2ml.Jobs.Engine.{Engine}
use cad2ml.Jobs.Db.{Database, JobEventRow, JobRow, entered, ok, str}
use cad2ml.Jobs.Db.Rows.{Fresh, Distinct, Distinct-map_where}
use cad2ml.Jobs.Db.Cas.{append_event_lem}
use cad2ml.Jobs.Db.History.{
  str_eq-comm_false, entry_other, Follows-others, All-split, Follows, start, IsConsistent, trail,
  trail-append, move-IsConsistent,
}
use cad2ml.Jobs.Service.{claim, claimed, job_clash, insert_job, has_file}
use cad2ml.Jobs.Service.Claim.{Claims, lost, gained, claim_cases}

pub ok_eq : {A : Type 0} {a b : A} → ok a ≡ ok b → a ≡ b
ok_eq h = cc

-- A claim into a state that `queued` may move to keeps the histories.
pub claim-IsConsistent :
    (e : Engine) (db : Database) (now : ℕ) (id worker : String) (lease_s : ℕ) (first : JobState)
    (r : Database × Option JobRow)
    → IsConsistent db
    → check_transition queued first ≡ true
    → claim e db now id worker lease_s first ≡ ok r
    → IsConsistent r.0
unfolding claimed
claim-IsConsistent e db now id worker lease_s first r c legal returned =
    go (claim_cases e db now id worker lease_s first c.unique)
  where
    go :
        Claims e db now id worker lease_s first (claim e db now id worker lease_s first)
        → IsConsistent r.0
    go (lost n p) = rw (ap (λ (x : Database × Option JobRow). x.0) (ok_eq (sym returned ∙ p))) c
    go (gained l m p) = rw (ap (λ (x : Database × Option JobRow). x.0) (ok_eq (sym returned ∙ p))) (
        move-IsConsistent db _ id l (claimed first worker now lease_s l.row) _ first c
          (rw (same→eq l.row.state queued m) legal) refl refl refl refl refl refl)

-- A row whose key is new clashes with no row, so its id is fresh.
pub Fresh-no_clash :
    (job : JobRow) (rows : List JobRow) → any (job_clash job) rows ≡ false → Fresh job.job_id rows
Fresh-no_clash job [] h = tt
Fresh-no_clash job (r ∷ rows) h = (ground arith, Fresh-no_clash job rows (ground arith))

Distinct-snoc :
    (rows : List JobRow) (job : JobRow)
    → Fresh job.job_id rows
    → Distinct rows
    → Distinct (rows ++ job ∷ [])
Distinct-snoc [] job f d = (tt, tt)
Distinct-snoc (r ∷ rows) job f d = (
  All-append _ rows (job ∷ []) d.0 (str_eq-comm_false r.job_id job.job_id f.0, tt),
  Distinct-snoc rows job f.1 d.1,
)

-- The event of a submission.
abbrev pub received_event : JobRow → ℕ → JobEventRow
received_event job now = record {
  job_id = job.job_id;
  state = entered received;
  attempt = 0;
  worker_id = none;
  detail = ("idempotency_key", str job.idempotency_key) ∷ [];
  created_at = now;
}

abbrev pub inserted : Database → JobRow → ℕ → Database
inserted db job now = record db {
  jobs = db.jobs ++ job ∷ [];
  events = db.events ++ received_event job now ∷ [];
}

-- A violated key: the row's own, or that of the file that it names.
abbrev pub is_refused : JobRow → Database → Bool
is_refused job db = not (has_file job.file_id db.files) || any (job_clash job) db.jobs

module _ (e : Engine) (job : JobRow) (now : ℕ) (db : Database) where
  pub insert_job-refused : is_refused job db ≡ true → insert_job e job now db ≡ ok (db, false)
  unfolding insert_job
  insert_job-refused h = elim (Bool-cases (has_file job.file_id db.files)) [
    | inl k ↦
        let clash : any (job_clash job) db.jobs ≡ true = ground arith in
        rw (k, e.insert_lem job_clash job db.jobs, clash, insert_job)
    | inr k ↦ rw (k, insert_job)
  ]

  pub insert_job-new :
      is_refused job db ≡ false → insert_job e job now db ≡ ok (inserted db job now, true)
  unfolding insert_job
  insert_job-new h =
      let k : has_file job.file_id db.files ≡ true = ground arith in
      let free : any (job_clash job) db.jobs ≡ false = ground arith in
      rw (
        k,
        e.insert_lem job_clash job db.jobs,
        free,
        append_event_lem e job.job_id (record db { jobs = db.jobs ++ job ∷ [] })
            (received_event job now),
        insert_job,
      )

-- A new row in `received` with its event keeps the histories.
inserted-IsConsistent :
    (db : Database) (job : JobRow) (now : ℕ)
    → IsConsistent db
    → job.state ≡ received
    → Fresh job.job_id db.jobs
    → IsConsistent (inserted db job now)
inserted-IsConsistent db job now c new f = record {
  unique = Distinct-snoc db.jobs job f c.unique;
  followed =
      All-append _ db.jobs (job ∷ [])
        (Follows-others job.job_id db.events (received_event job now) db.jobs refl f c.followed)
        (
          rw
              (
                trail-append job.job_id db.events (received_event job now),
                c.orphans job.job_id f,
                eq_refl job.job_id,
                new,
              )
              (start refl refl),
          tt,
        );
  orphans = λ k g.
      let parts = All-split _ db.jobs job [] g in
      rw (
        trail-append k db.events (received_event job now),
        c.orphans k parts.0,
        entry_other k (received_event job now) job.job_id refl
            (str_eq-comm_false job.job_id k parts.1),
      );
}

pub insert_job-IsConsistent :
    (e : Engine) (job : JobRow) (now : ℕ) (db : Database)
    → IsConsistent db
    → job.state ≡ received
    → (r : Database × Bool) → insert_job e job now db ≡ ok r
    → IsConsistent r.0
insert_job-IsConsistent e job now db c new r returned = elim (Bool-cases (is_refused job db)) [
  | inl h ↦
      rw
        (ap (λ (x : Database × Bool). x.0)
          (ok_eq (sym returned ∙ insert_job-refused e job now db h)))
        c
  | inr h ↦
      rw (ap (λ (x : Database × Bool). x.0) (ok_eq (sym returned ∙ insert_job-new e job now db h)))
        (inserted-IsConsistent db job now c new (Fresh-no_clash job db.jobs (ground arith)))
]

-- Writes that touch neither ids nor states keep the histories.
Follows-map_where :
    (p : JobRow → Bool) (g : JobRow → JobRow) (evs : List JobEventRow)
    → ((r : JobRow) → (g r).job_id ≡ r.job_id)
    → ((r : JobRow) → (g r).state ≡ r.state)
    → (rows : List JobRow) → All (λ (r : JobRow). Follows (trail r.job_id evs) r.state) rows
    → All (λ (r : JobRow). Follows (trail r.job_id evs) r.state) (map_where p g rows)
Follows-map_where p g evs ids states [] h = tt
Follows-map_where p g evs ids states (r ∷ rows) h = elim (Bool-cases (p r)) [
  | inl t ↦ rw (t, ids r, states r) (h.0, Follows-map_where p g evs ids states rows h.1)
  | inr t ↦ rw t (h.0, Follows-map_where p g evs ids states rows h.1)
]

Fresh-map_where_back :
    (k : String) (p : JobRow → Bool) (g : JobRow → JobRow)
    → ((r : JobRow) → (g r).job_id ≡ r.job_id)
    → (rows : List JobRow) → Fresh k (map_where p g rows)
    → Fresh k rows
Fresh-map_where_back k p g ids [] f = tt
Fresh-map_where_back k p g ids (r ∷ rows) f =
    (ground (arith, ids r, f.0), Fresh-map_where_back k p g ids rows f.1)

pub map_where-IsConsistent :
    (db : Database) (p : JobRow → Bool) (g : JobRow → JobRow)
    → ((r : JobRow) → (g r).job_id ≡ r.job_id)
    → ((r : JobRow) → (g r).state ≡ r.state)
    → IsConsistent db
    → IsConsistent (record db { jobs = map_where p g db.jobs })
map_where-IsConsistent db p g ids states c = record {
  unique = Distinct-map_where p g ids db.jobs c.unique;
  followed = Follows-map_where p g db.events ids states db.jobs c.followed;
  orphans = λ k f. c.orphans k (Fresh-map_where_back k p g ids db.jobs f);
}
