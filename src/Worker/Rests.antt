-- ===== src/Worker/Rests.antt =====
-- The `except` and `finally` clauses of `Worker.handle` in apps/worker/main.py: no claimed job is
-- left in flight.
use cad2ml.Prelude.{
  ℕ, ◌≡◌, ap, inl, inr, [], ◌∷◌, some, String, true, false, arith, Bool-cases, not, ◌&&◌,
}
use cad2ml.Errors.{internal_error}
use cad2ml.Jobs.States.{
  JobState, completed, failed_terminal, check_transition, same, is_in_flight, is_terminal,
}
use cad2ml.Jobs.States.Runs.{nonterminal_can_fail}
use cad2ml.Jobs.Engine.{Engine}
use cad2ml.Jobs.Queue.{Client}
use cad2ml.Jobs.Exec.{World, pure, read_db, ◌>>=◌, ◌>>◌}
use cad2ml.Jobs.Db.{JobRow, no_fields, given, str, Result, ok, err}
use cad2ml.Jobs.Service.{is_done}
use cad2ml.Jobs.Service.Claim.{get_job-Located}
use cad2ml.Jobs.Service.Moves.{At, move-At}
use cad2ml.Worker.{
  Job, handled, try_except, try_finally, run_kind, run_claimed, state_of_job, give_up, guarded_run,
  ack_job, first_state,
}
use cad2ml.Worker.Settles.{Settled, rests_failed, run_kind-Settled}

-- The run has returned, and the row is there and not in flight.
abbrev pub Rested : {c : Client} → String → ℕ → ℕ → World c × Result (Unit {0}) → Type 0
Rested id n m (w, ok u) = (s : JobState) × At id s n m w.db × (is_in_flight s ≡ false)
Rested id n m (w, err x) = ⊥

live_can_fail :
    (s : JobState)
    → (not (same s completed) && not (is_done s)) ≡ true
    → check_transition s failed_terminal ≡ true
unfolding is_done same
live_can_fail s h = nonterminal_can_fail s (ground arith)

done_rests :
    (s : JobState) → (not (same s completed) && not (is_done s)) ≡ false → is_in_flight s ≡ false
unfolding is_done same is_terminal is_in_flight
done_rests s h = ground arith

module _ (e : Engine) (c : Client) (worker : String) (now : ℕ) (id : String) (n m : ℕ) where
  state_of_job-At :
      (s : JobState) (w : World c) → At id s n m w.db → state_of_job e c worker now id w.db ≡ ok s
  unfolding state_of_job
  state_of_job-At s w a = rw (get_job-Located e id w.db a.row, state_of_job) (ap ok a.state)

  give_up-Settled :
      (message : String) (s : JobState) (w : World c)
      → At id s n m w.db
      → (s' : JobState) × (w' : World c) × (give_up e c worker now id message w ≡ (w', ok tt))
        × At id s' n m w'.db
        × (is_in_flight s' ≡ false)
  unfolding give_up read_db pure ◌>>=◌ ◌>>◌
  give_up-Settled message s w a = elim (Bool-cases (not (same s completed) && not (is_done s))) [
    | inl t ↦
        let (db', p, a') =
          move-At e c now id s failed_terminal (("error", str message) ∷ []) (some worker)
            (record no_fields {
              error_code = given (some internal_error);
              error_message = given (some message);
              finished_at = given (some now);
            })
            w a (live_can_fail s t) in
        (failed_terminal, record w { db = db' }, rw (state_of_job-At s w a, t, p), a', rests_failed)
    | inr t ↦ (s, w, rw (state_of_job-At s w a, t), a, done_rests s t)
  ]

  handled-Rested :
      (message : String) (w : World c) (r : Result (Unit {0}))
      → Settled {c = c} id n m (w, r)
      → Rested {c = c} id n m (handled (λ x. give_up e c worker now id message) (w, r))
  handled-Rested message w (ok u) a = a
  handled-Rested message w (err x) (s, a) =
      let (s', w', p, a', f) = give_up-Settled message s w a in rw p (s', a', f)

  acked-Rested :
      (r : World c × Result (Unit {0}))
      → Rested {c = c} id n m r
      → Rested {c = c} id n m (ack_job e c worker now id r.0, r.1)
  unfolding ack_job
  acked-Rested (w, ok u) h = h
  acked-Rested (w, err x) h = h

  -- A worker that has claimed the job, and that nothing interferes with, returns from its run with
  -- the job in a state that is not in flight and with its attempts as they were: whatever stages
  -- the pipeline reports and whether it ends with a manifest, an error code or an exception.
  pub guarded_run-Rested :
      (job : JobRow) (run : Job) (message : String) (w : World c)
      → job.job_id ≡ id
      → At id (first_state job.kind) n m w.db
      → Rested {c = c} id n m (guarded_run e c worker now id job run message w)
  unfolding guarded_run run_claimed try_finally try_except
  guarded_run-Rested job run message w same_id a =
      let r : World c × Result (Unit {0}) = run_kind e c worker now job.kind job run w in
      acked-Rested _ (
        handled-Rested message r.0 r.1
          (run_kind-Settled e c worker now id job.kind job run w same_id a))
