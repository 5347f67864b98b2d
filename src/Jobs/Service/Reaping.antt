-- ===== src/Jobs/Service/Reaping.antt =====
-- A whole run of `reap_expired_leases` of cad2ml/jobs/service.py, without interference.
use cad2ml.Prelude.{
  map, some, ◌∙◌, ◌<◌, Option-cases, keep-All, keep-Mem, all_members, ℕ, ◌≡◌, refl, ap, sym, inl,
  inr, Bool, true, false, List, [], ◌∷◌, Option, String, str_eq, arith, All, All-map, All-zip,
  All-keep, keep,
}
use mathlib.Core.List.{Memᴰ}
use cad2ml.Jobs.States.{JobState, is_in_flight}
use cad2ml.Jobs.Engine.{Engine}
use cad2ml.Jobs.Queue.{Client}
use cad2ml.Jobs.Exec.{World, pure, read_db, ◌>>=◌, resume}
use cad2ml.Jobs.Exec.Keeps.{Keeps, Keeps-on_db, keeps_rules}
use cad2ml.Jobs.Db.{JobRow, Database, Dict, Fields, Result, ok, has_id, in_state, moved}
use cad2ml.Jobs.Db.Rows.{Fresh, Distinct, keep-Located}
use cad2ml.Jobs.Db.History.{str_eq-comm_false}
use cad2ml.Jobs.Service.{move}
use cad2ml.Jobs.Service.Recovery.{
  is_expired, retry_or_fail, reap_one, reap_rows, reap_expired_leases,
}
use cad2ml.Jobs.Service.Reaper.{reap_one-At, handed_back, reaped_state}
use cad2ml.Jobs.Service.Others.{keep_other, transition-jobs, own_rows, Distinct-keep, one_row}

module _ (e : Engine) (c : Client) (now : ℕ) where
  -- What the tables have under `k`.
  abbrev Under : String → List JobRow → Database → Type 0
  Under k rows db = keep (has_id k) db.jobs ≡ rows

  move_other :
      (k : String) (rows : List JobRow) (id : String) (src dst : JobState) (detail : Dict)
      (worker : Option String) (fields : Fields)
      → str_eq id k ≡ false
      → Keeps (Under k rows) (move e c now id src dst detail worker fields)
  unfolding moved
  move_other k rows id src dst detail worker fields other = Keeps-on_db _ λ db h r q.
      rw
        (
          transition-jobs e db now id src dst detail worker fields r q,
          e.update_lem (in_state id src) (moved dst now fields) db.jobs,
          keep_other id k src (moved dst now fields) other (λ x. refl) db.jobs,
        )
        h

  reap_one_other :
      (k : String) (rows : List JobRow) (job : JobRow)
      → str_eq job.job_id k ≡ false
      → Keeps (Under k rows) (reap_one e c now job)
  unfolding reap_one retry_or_fail
  reap_one_other k rows job other =
      let moves : (src dst : JobState) (detail : Dict) (worker : Option String) (fields : Fields)
          → Keeps (Under k rows) (move e c now job.job_id src dst detail worker fields) =
        λ src dst detail worker fields.
          move_other k rows job.job_id src dst detail worker fields other in
      search (keeps_rules, moves) depth 12

  -- The row of a reaped job: its counters stay.
  abbrev pub IsReaped : Database → JobRow → Type 0
  IsReaped db job =
      (r : JobRow) × (keep (has_id job.job_id) db.jobs ≡ r ∷ [])
      × (r.state ≡ reaped_state e c now job)
      × (r.attempts ≡ job.attempts)
      × (r.max_attempts ≡ job.max_attempts)

  -- The transport after the jobs with attempts left are handed back, in order.
  abbrev pub all_handed_back : List JobRow → c.Store → c.Store
  all_handed_back [] s = s
  all_handed_back (job ∷ rest) s = all_handed_back rest (handed_back e c now job s)

  -- The world after a run of the reaper over `rows`.
  pub record HasReaped (rows : List JobRow) (w w' : World c) : Type 0 where
    pub unique : Distinct w'.db.jobs
    pub reaped : All (IsReaped w'.db) rows
    pub others_stay :
        (k : String) → Fresh k rows → keep (has_id k) w'.db.jobs ≡ keep (has_id k) w.db.jobs
    pub handed : w'.redis ≡ all_handed_back rows w.redis

  reap_one_lem :
      (job : JobRow) (w : World c)
      → is_in_flight job.state ≡ true
      → Distinct w.db.jobs
      → keep (has_id job.job_id) w.db.jobs ≡ job ∷ []
      → (w' : World c) × (reap_one e c now job w ≡ (w', ok true))
        × Distinct w'.db.jobs
        × IsReaped w'.db job
        × ((k : String)
            → str_eq job.job_id k ≡ false
            → keep (has_id k) w'.db.jobs ≡ keep (has_id k) w.db.jobs)
        × (w'.redis ≡ handed_back e c now job w.redis)
  reap_one_lem job w flying d h =
      let (l, same_) = one_row job.job_id w.db.jobs job d h in
      let (db', p, a) = reap_one-At e c now job w flying (record {
        unique = d;
        row = l;
        state = ap (λ (r : JobRow). r.state) same_;
        attempts = ap (λ (r : JobRow). r.attempts) same_;
        max_attempts = ap (λ (r : JobRow). r.max_attempts) same_;
      }) in
      (
        record { db = db'; redis = handed_back e c now job w.redis },
        p,
        a.unique,
        (a.row.row, keep-Located job.job_id db'.jobs a.row, a.state, a.attempts, a.max_attempts),
        λ k other.
            rw (ap (λ (x : World c × Result Bool). x.0.db) (sym p))
              ((reap_one_other k (keep (has_id k) w.db.jobs) job other).at w refl),
        refl,
      )

  -- A row that the reaper has read and that is still so.
  abbrev IsRead : World c → JobRow → Type 0
  IsRead w r = (is_in_flight r.state ≡ true) × (keep (has_id r.job_id) w.db.jobs ≡ r ∷ [])

  reap_rows_lem :
      (rows : List JobRow) (w : World c)
      → Distinct rows
      → All (IsRead w) rows
      → Distinct w.db.jobs
      → (w' : World c) × (reap_rows e c now rows w ≡ (w', ok (map (λ (r : JobRow). r.job_id) rows)))
        × HasReaped rows w w'
  unfolding reap_rows pure ◌>>=◌ resume
  reap_rows_lem [] w apart read d =
      (w, refl, record { unique = d; reaped = tt; others_stay = λ k f. refl; handed = refl })
  reap_rows_lem (job ∷ rest) w apart read d =
      let (w₁, p, d₁, gone, stay, handed) = reap_one_lem job w read.0.0 d read.0.1 in
      let still : All (IsRead w₁) rest =
        All-map _ _ rest
          (λ x h. (h.1.0, stay x.job_id (str_eq-comm_false x.job_id job.job_id h.0) ∙ h.1.1))
          (All-zip _ _ rest apart.0 read.1) in
      let (w₂, q, after) = reap_rows_lem rest w₁ apart.1 still d₁ in
      let (r, found, state, attempts, max_attempts) = gone in
      (
        w₂,
        rw (p, q) refl,
        record {
          unique = after.unique;
          reaped = (
            (r, after.others_stay job.job_id apart.0 ∙ found, state, attempts, max_attempts),
            after.reaped,
          );
          others_stay = λ k f. after.others_stay k f.1 ∙ stay k f.0;
          handed = after.handed ∙ ap (all_handed_back rest) handed;
        },
      )

  -- A job in flight whose lease has run out.
  abbrev pub HasExpired : JobRow → Type 0
  HasExpired r = (is_in_flight r.state ≡ true) × (t : ℕ) × (r.lease_expires_at ≡ some t) × (t < now)

  HasExpired-is_expired : (r : JobRow) → is_expired now r ≡ true → HasExpired r
  unfolding is_expired
  HasExpired-is_expired r h = elim (Option-cases r.lease_expires_at) [
    | inl q ↦ let no : ⊥ = ground arith in absurd no
    | inr (t, q) ↦ (ground arith, t, q, ground arith)
  ]

  is_expired-HasExpired : (r : JobRow) → HasExpired r → is_expired now r ≡ true
  unfolding is_expired
  is_expired-HasExpired r (flying, t, q, late) = ground arith

  -- Without interference and with unique ids, a run of the reaper returns the ids of jobs, which are those of the table in
  -- flight whose lease has run out. Each of them has then one row, in `queued` while attempts are left and in
  -- `failed_terminal` otherwise, with its counters; those with attempts left are put into the transport; the rows under all
  -- other ids stay.
  pub reap_expired_leases_lem :
      (w : World c)
      → Distinct w.db.jobs
      → (gone : List JobRow) × (w' : World c) × (reap_expired_leases e c now w
          ≡ (w', ok (map (λ (r : JobRow). r.job_id) gone)))
        × All (λ r. HasExpired r × Memᴰ r w.db.jobs) gone
        × All (λ r. HasExpired r → Memᴰ r gone) w.db.jobs
        × HasReaped gone w w'
  unfolding reap_expired_leases read_db ◌>>=◌ resume
  reap_expired_leases_lem w d =
      let p : JobRow → Bool = is_expired now in
      let gone : List JobRow = keep p w.db.jobs in
      let expired : All HasExpired gone =
        All-map _ _ gone HasExpired-is_expired (keep-All p w.db.jobs) in
      let read : All (IsRead w) gone =
        All-map _ _ gone (λ x h. (h.0.0, h.1))
          (All-zip HasExpired _ gone expired (All-keep _ p w.db.jobs (own_rows w.db.jobs d))) in
      let (w', q, h) = reap_rows_lem gone w (Distinct-keep p w.db.jobs d) read d in
      (
        gone,
        w',
        rw (e.select_lem p w.db.jobs) q,
        All-zip HasExpired (λ r. Memᴰ r w.db.jobs) gone expired
            (All-keep _ p w.db.jobs (all_members _ w.db.jobs λ r m. m)),
        all_members _ w.db.jobs (λ r m k. keep-Mem p r w.db.jobs (is_expired-HasExpired r k) m),
        h,
      )
