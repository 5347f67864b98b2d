-- ===== src/Jobs/Service/Reaper.antt =====
-- `reap_expired_leases` of cad2ml/jobs/service.py: a job whose lease has run out is queued again
-- while it has attempts left, and failed for good otherwise.
use cad2ml.Prelude.{
  ℕ, ◌≡◌, refl, inl, inr, [], ◌∷◌, none, some, true, ◌+◌, ltb, if◌then◌else◌, Bool-cases,
}
use cad2ml.Jobs.States.{
  JobState, queued, failed_retryable, failed_terminal, is_in_flight, check_transition,
}
use cad2ml.Jobs.States.Runs.{in_flight_can_retry}
use cad2ml.Jobs.Engine.{Engine}
use cad2ml.Jobs.Queue.{Client, enqueue}
use cad2ml.Jobs.Exec.{World, pure, on_redis, ◌>>=◌, ◌>>◌}
use cad2ml.Jobs.Db.{num, str, given, no_fields, JobRow, Database, ok}
use cad2ml.Jobs.Service.{opt_text, opt_num}
use cad2ml.Jobs.Service.Recovery.{lost_fields, retry_or_fail, reap_one}
use cad2ml.Jobs.Service.Moves.{At, move-At}

module _ (e : Engine) (c : Client) (now : ℕ) where
  -- The transport after a reaped job.
  abbrev pub handed_back : JobRow → c.Store → c.Store
  handed_back job s = if ltb job.attempts job.max_attempts then enqueue c job.job_id s else s

  abbrev pub reaped_state : JobRow → JobState
  reaped_state job = if ltb job.attempts job.max_attempts then queued else failed_terminal

  retry_or_fail-At :
      (job : JobRow) (w : World c) {n m : ℕ}
      → At job.job_id failed_retryable n m w.db
      → (db' : Database) × (retry_or_fail e c now job w
          ≡ (record { db = db'; redis = handed_back job w.redis }, ok tt))
        × At job.job_id (reaped_state job) n m db'
  unfolding retry_or_fail check_transition on_redis pure ◌>>=◌ ◌>>◌
  retry_or_fail-At job w a = elim (Bool-cases (ltb job.attempts job.max_attempts)) [
    | inl t ↦
        let (db', p, a') =
          move-At e c now job.job_id failed_retryable queued
            (("retry", num (job.attempts + 1)) ∷ ("of", num job.max_attempts) ∷ []) none no_fields w
            a refl in
        (db', rw (t, p), rw t a')
    | inr t ↦
        let (db', p, a') =
          move-At e c now job.job_id failed_retryable failed_terminal
            (("reason", str "max_attempts_exhausted") ∷ []) none
            (record no_fields { finished_at = given (some now) }) w a refl in
        (db', rw (t, p), rw t a')
  ]

  -- A row in flight that is still as the reaper has read it is moved: back to `queued` and to the
  -- transport while attempts are left, and to `failed_terminal` once they are used up; the counters
  -- of the row stay.
  pub reap_one-At :
      (job : JobRow) (w : World c) {n m : ℕ}
      → is_in_flight job.state ≡ true
      → At job.job_id job.state n m w.db
      → (db' : Database) × (reap_one e c now job w
          ≡ (record { db = db'; redis = handed_back job w.redis }, ok true))
        × At job.job_id (reaped_state job) n m db'
  unfolding reap_one pure ◌>>=◌ ◌>>◌
  reap_one-At job w flying a =
      let (db₁, p, a₁) =
        move-At e c now job.job_id job.state failed_retryable
          (("reason", str "WORKER_LOST")
            ∷ ("worker_id", opt_text job.worker_id)
            ∷ ("lease_expired_at", opt_num job.lease_expires_at)
            ∷ [])
          none (lost_fields e c) w a (in_flight_can_retry job.state flying) in
      let (db₂, q, a₂) = retry_or_fail-At job (record w { db = db₁ }) a₁ in (db₂, rw (p, q), a₂)
