-- ===== src/Jobs/Service/Recovery.antt =====
-- `reap_expired_leases` and `reconcile_queue` of cad2ml/jobs/service.py.
use cad2ml.Prelude.{
  ℕ, ◌+◌, Bool, true, false, not, ◌&&◌, List, [], ◌∷◌, map, Option, none, some, String, ltb,
  if◌then◌else◌, contains, keep,
}
use cad2ml.Errors.{worker_lost}
use cad2ml.Jobs.States.{queued, failed_retryable, failed_terminal, same, is_in_flight}
use cad2ml.Jobs.Engine.{Engine}
use cad2ml.Jobs.Db.{JobRow, num, str, Fields, no_fields, given, Result, ok}
use cad2ml.Jobs.Queue.{Client, enqueue, queued_ids}
use cad2ml.Jobs.Exec.{World, Exec, pure, read_db, on_redis, ◌>>=◌, ◌>>◌}
use cad2ml.Jobs.Service.{move, opt_text, opt_num}

-- `lease_expires_at < now`: no lease compares as unknown.
abbrev pub before : Option ℕ → ℕ → Bool
before none now = false
before (some t) now = ltb t now

-- The rows that `reap_expired_leases` selects.
unfoldable pub is_expired : ℕ → JobRow → Bool
is_expired now r = is_in_flight r.state && before r.lease_expires_at now

-- The rows that `reconcile_queue` selects: queued, and last updated before the cutoff.
unfoldable pub is_stale : ℕ → ℕ → JobRow → Bool
is_stale now min_age_s r = same r.state queued && ltb (r.updated_at + min_age_s) now

module _ (e : Engine) (c : Client) where
  -- A lost job is queued again while it has attempts left, by the row that the reaper has read.
  unfoldable pub retry_or_fail : ℕ → JobRow → Exec (World c) (Unit {0})
  retry_or_fail now job =
      if ltb job.attempts job.max_attempts
      then (do
        move e c now job.job_id failed_retryable queued
            (("retry", num (job.attempts + 1)) ∷ ("of", num job.max_attempts) ∷ []) none no_fields
        on_redis (enqueue c job.job_id))
      else (do
        move e c now job.job_id failed_retryable failed_terminal
            (("reason", str "max_attempts_exhausted") ∷ []) none
            (record no_fields { finished_at = given (some now) })
        pure tt)

  abbrev pub lost_fields : Fields
  lost_fields = record no_fields {
    error_code = given (some worker_lost);
    error_message = given (some "lease expired");
  }

  -- One round of the reaper's loop: whether the row was moved.
  unfoldable pub reap_one : ℕ → JobRow → Exec (World c) Bool
  reap_one now job = do
    lost ←
        move e c now job.job_id job.state failed_retryable
          (("reason", str "WORKER_LOST")
            ∷ ("worker_id", opt_text job.worker_id)
            ∷ ("lease_expired_at", opt_num job.lease_expires_at)
            ∷ [])
          none lost_fields
    if lost then retry_or_fail now job >> pure true else pure false

  unfoldable pub reap_rows : ℕ → List JobRow → Exec (World c) (List String)
  reap_rows now [] = pure []
  reap_rows now (job ∷ rest) = do
    gone ← reap_one now job
    ids ← reap_rows now rest
    pure (if gone then job.job_id ∷ ids else ids)

  unfoldable pub reap_expired_leases : ℕ → Exec (World c) (List String)
  reap_expired_leases now = do
    rows ← read_db (λ db. ok (e.select (is_expired now) db.jobs))
    reap_rows now rows

  unfoldable pub enqueue_all : List String → c.Store → c.Store
  enqueue_all [] s = s
  enqueue_all (j ∷ js) s = enqueue_all js (enqueue c j s)

  unfoldable pub reconcile_queue : ℕ → ℕ → World c → World c × Result (List String)
  reconcile_queue now min_age_s w =
      let present : List String = queued_ids c w.redis in
      let ids : List String =
        map (λ (r : JobRow). r.job_id) (e.select (is_stale now min_age_s) w.db.jobs) in
      let missing : List String = keep (λ j. not (contains present j)) ids in
      (record w { redis = enqueue_all missing w.redis }, ok missing)
