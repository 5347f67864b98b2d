-- ===== src/Worker/Settles.antt =====
-- A worker that is not interfered with leaves no claimed job in flight, however the pipeline or the
-- training ends: completed, failed by a code, or with an exception.
use cad2ml.Prelude.{
  ℕ, ◌+◌, ◌≡◌, refl, inl, inr, [], ◌∷◌, none, some, String, true, false, arith, Bool-cases, ltb,
}
use cad2ml.Errors.{ErrorCode, error_codes}
use cad2ml.Jobs.States.{
  JobState, parsing, training, completed, failed_retryable, failed_terminal, queued,
  check_transition, same, is_in_flight,
}
use cad2ml.Jobs.Engine.{Engine}
use cad2ml.Jobs.Queue.{Client}
use cad2ml.Jobs.Exec.{World, Exec, pure, read_db, on_redis, ◌>>=◌, ◌>>◌, resume}
use cad2ml.Jobs.Db.{
  JobRow, Kind, process, train, no_fields, given, num, str, error, flag, Result, ok, err,
}
use cad2ml.Jobs.Service.{outcome_state}
use cad2ml.Jobs.Service.Claim.{get_job-Located}
use cad2ml.Jobs.Service.Moves.{At, move-At}
use cad2ml.Worker.{
  finish_processing, finish_training, Processed, Trained, Job, complete, requeue_or_fail,
  fail_retryable, fail_for_good, settle, find_file, run_processing, run_training, run_kind,
  progress_all, opt_count, code_of, message_of, message_or_empty, first_state,
}
use cad2ml.Worker.Tracks.{Tracked, move_cases, progress_all-Tracked}

-- The row is there, and not in flight if the run has returned.
abbrev pub Settled : {c : Client} → String → ℕ → ℕ → World c × Result (Unit {0}) → Type 0
Settled id n m (w, ok u) = (s : JobState) × At id s n m w.db × (is_in_flight s ≡ false)
Settled id n m (w, err x) = (s : JobState) × At id s n m w.db

rests_completed : is_in_flight completed ≡ false
unfolding is_in_flight
rests_completed = refl

rests_queued : is_in_flight queued ≡ false
unfolding is_in_flight
rests_queued = refl

pub rests_failed : is_in_flight failed_terminal ≡ false
unfolding is_in_flight
rests_failed = refl

rests_outcome : (code : ErrorCode) → is_in_flight (outcome_state code) ≡ false
unfolding is_in_flight outcome_state
rests_outcome code = ground arith

retry_moves :
    (check_transition failed_retryable queued ≡ true)
    × (check_transition failed_retryable failed_terminal ≡ true)
unfolding check_transition
retry_moves = (refl, refl)

module _ (e : Engine) (c : Client) (worker : String) (now : ℕ) (id : String) {n m : ℕ} where
  requeue_or_fail-Settled :
      (r : JobRow) (w : World c)
      → At id failed_retryable n m w.db
      → Settled {c = c} id n m (requeue_or_fail e c worker now id (some r) w)
  unfolding requeue_or_fail on_redis pure ◌>>=◌ ◌>>◌
  requeue_or_fail-Settled r w a = elim (Bool-cases (ltb r.attempts r.max_attempts)) [
    | inl t ↦
        let (db', p, a') =
          move-At e c now id failed_retryable queued (("retry", num (r.attempts + 1)) ∷ []) none
            no_fields w a retry_moves.0 in
        rw (t, p) (queued, a', rests_queued)
    | inr t ↦
        let (db', p, a') =
          move-At e c now id failed_retryable failed_terminal
            (("reason", str "max_attempts_exhausted") ∷ []) none
            (record no_fields { finished_at = given (some now) }) w a retry_moves.1 in
        rw (t, p) (failed_terminal, a', rests_failed)
  ]

  fail_retryable-Settled :
      (cur : JobState) (code : ErrorCode) (w : World c)
      → At id cur n m w.db
      → Settled {c = c} id n m (fail_retryable e c worker now id cur code w)
  unfolding fail_retryable read_db pure ◌>>=◌ ◌>>◌
  fail_retryable-Settled cur code w a =
      elim (move_cases e c now id cur failed_retryable (("code", error code) ∷ []) (some worker)
        (record no_fields { error_code = given (some code) }) w a) [
          | inl p ↦ rw p (cur, a)
          | inr (db', p, a') ↦
              rw (p, get_job-Located e id db' a'.row)
                (requeue_or_fail-Settled a'.row.row (record w { db = db' }) a')
        ]

  complete-Settled :
      (cur : JobState) (m' : Processed) (w : World c)
      → At id cur n m w.db
      → Settled {c = c} id n m ((complete e c worker now id cur m' >> pure tt) w)
  unfolding complete pure ◌>>=◌ ◌>>◌
  complete-Settled cur m' w a =
      elim (move_cases e c now id cur completed (("sample_id", str m'.sample_id) ∷ []) (some worker)
        (record no_fields {
          sample_id = given (some m'.sample_id);
          finished_at = given (some now);
          result = given (
              some (
                ("sample_id", str m'.sample_id)
                ∷ ("status", str "completed")
                ∷ ("face_count", opt_count m'.face_count)
                ∷ []));
        })
        w a) [ inl p ↦ rw p (cur, a) | inr (db', p, a') ↦ rw p (completed, a', rests_completed) ]

  fail_for_good-Settled :
      (cur : JobState) (m' : Processed) (w : World c)
      → At id cur n m w.db
      → Settled {c = c} id n m (fail_for_good e c worker now id cur m' w)
  unfolding fail_for_good pure ◌>>=◌ ◌>>◌
  fail_for_good-Settled cur m' w a =
      elim (move_cases e c now id cur (outcome_state (code_of m'))
        (("code", error (code_of m'))
          ∷ ("message", str (message_or_empty m'))
          ∷ ("retryable", flag (error_codes (code_of m')).retryable)
          ∷ [])
        (some worker)
        (record {
          sample_id = given (some m'.sample_id);
          error_code = given (some (code_of m'));
          error_message = given (message_of m');
          finished_at = given (some now);
          result = given (some (("sample_id", str m'.sample_id) ∷ ("status", str m'.status) ∷ []));
        })
        w a) [
          | inl p ↦ rw p (cur, a)
          | inr (db', p, a') ↦ rw p (outcome_state (code_of m'), a', rests_outcome (code_of m'))
        ]

  settle-Settled :
      (cur : JobState) (m' : Processed) (w : World c)
      → At id cur n m w.db
      → Settled {c = c} id n m (settle e c worker now id cur m' w)
  unfolding settle
  settle-Settled cur m' w a = elim (Bool-cases m'.is_completed) [
    | inl t ↦ simp t (complete-Settled cur m' w a)
    | inr t ↦ elim (Bool-cases (same (outcome_state (code_of m')) failed_retryable)) [
      | inl s ↦ simp (t, s) (fail_retryable-Settled cur (code_of m') w a)
      | inr s ↦ simp (t, s) (fail_for_good-Settled cur m' w a)
    ]
  ]

  resume-Settled :
      (k : JobState → Exec (World c) (Unit {0})) (w : World c) (r : Result JobState)
      → ((cur : JobState) → At id cur n m w.db → Settled {c = c} id n m (k cur w))
      → Tracked {c = c} id n m (w, r)
      → Settled {c = c} id n m (resume k r w)
  unfolding resume
  resume-Settled k w (ok cur) f a = f cur a
  resume-Settled k w (err x) f a = a

  resume-any :
      {A : Type 0} (k : A → Exec (World c) (Unit {0})) (w : World c) (r : Result A) (s : JobState)
      → At id s n m w.db
      → ((a : A) → Settled {c = c} id n m (k a w))
      → Settled {c = c} id n m (resume k r w)
  unfolding resume
  resume-any k w (ok x) s a f = f x
  resume-any k w (err x) s a f = (s, a)

  finish_training-Settled :
      (r : Result Trained) (w : World c)
      → At id training n m w.db
      → Settled {c = c} id n m (finish_training e c worker now id r w)
  unfolding finish_training read_db pure ◌>>=◌ ◌>>◌
  finish_training-Settled (err x) w a = (training, a)
  finish_training-Settled (ok t) w a =
      elim (move_cases e c now id training completed (("run_id", str t.run_id) ∷ []) (some worker)
        (record no_fields { finished_at = given (some now); result = given (some t.result) }) w a) [
          | inl p ↦ rw p (training, a)
          | inr (db', p, a') ↦ rw p (completed, a', rests_completed)
        ]

  finish_processing-Settled :
      (r : Result Processed) (w : World c) (cur : JobState)
      → At id cur n m w.db
      → Settled {c = c} id n m (finish_processing e c worker now id r cur w)
  unfolding finish_processing read_db ◌>>=◌
  finish_processing-Settled (err x) w cur a = (cur, a)
  finish_processing-Settled (ok m') w cur a = settle-Settled cur m' w a

  run_processing-Settled :
      (job : JobRow) (run : Job) (w : World c)
      → job.job_id ≡ id
      → At id parsing n m w.db
      → Settled {c = c} id n m (run_processing e c worker now job run w)
  unfolding run_processing read_db ◌>>=◌
  run_processing-Settled job run w same_id a =
      let after : World c × Result JobState = progress_all e c worker now id parsing run.stages w in
      simp same_id (
        resume-any _ w (find_file e c worker now job.file_id w.db) parsing a λ f.
          resume-Settled (finish_processing e c worker now id run.processed) after.0 after.1
            (λ cur. finish_processing-Settled run.processed after.0 cur)
            (progress_all-Tracked e c worker now id parsing run.stages w a))

  pub run_kind-Settled :
      (k : Kind) (job : JobRow) (run : Job) (w : World c)
      → job.job_id ≡ id
      → At id (first_state k) n m w.db
      → Settled {c = c} id n m (run_kind e c worker now k job run w)
  unfolding run_kind first_state run_training
  run_kind-Settled process job run w same_id a = run_processing-Settled job run w same_id a
  run_kind-Settled train job run w same_id a =
      simp same_id (finish_training-Settled run.trained w a)
