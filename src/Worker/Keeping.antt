-- ===== src/Worker/Keeping.antt =====
-- Handling a job id keeps the histories, whatever the pipeline reports and however it ends.
use cad2ml.Prelude.{arith, ◌≡◌, refl, true, List, [], ◌∷◌, Option, none, some, String, ℕ}
use cad2ml.Jobs.States.{JobState, queued, check_transition}
use cad2ml.Jobs.Engine.{Engine}
use cad2ml.Jobs.Queue.{Client}
use cad2ml.Jobs.Db.{
  JobRow, Kind, process, train, Database, Dict, Result, ok, err, Failure, add_event,
}
use cad2ml.Jobs.Db.History.{IsConsistent, add_event-IsConsistent}
use cad2ml.Jobs.Exec.{no_value, World, Exec, on_db}
use cad2ml.Jobs.Exec.Keeps.{
  Keeps, Keeps-on_db, Keeps-bind, keeps_rules, Keeps-pure, Keeps-on_redis, Keeps-read_db,
  Keeps-then,
}
use cad2ml.Jobs.Service.Keeping.{move-Keeps, claim-Keeps, heartbeat-IsConsistent}
use cad2ml.Worker.{
  Processed, Job, handled, try_except, try_finally, stage_state, note_stage, progress, progress_all,
  complete, requeue_or_fail, fail_retryable, fail_for_good, settle, finish_processing,
  finish_training, run_processing, run_training, give_up, guarded_run, run_claimed, ack_job,
  handle_claimed, handle, first_state, ErrorCode, enter, run_kind, handle_claim, handle_found,
}

no_value-eq-ok : (r : Result Database) (p : Database × Unit {0}) → no_value r ≡ ok p → r ≡ ok p.0
no_value-eq-ok (ok db) p q = ground arith
no_value-eq-ok (err x) p q = cc

module _ {c : Client} {P : Database → Type 0} {A : Type 0} where
  Keeps-handled :
      (h : Failure → Exec (World c) A) (s : World c) (r : Result A)
      → ((x : Failure) → Keeps P (h x))
      → P s.db
      → P (handled h (s, r)).0.db
  Keeps-handled h s (ok a) k p = p
  Keeps-handled h s (err x) k p = (k x).at s p

  pub Keeps-try_except :
      (m : Exec (World c) A) (h : Failure → Exec (World c) A)
      → Keeps P m
      → ((x : Failure) → Keeps P (h x))
      → Keeps P (try_except m h)
  unfolding try_except
  Keeps-try_except m h km kh = record { at = λ w p. Keeps-handled h (m w).0 (m w).1 kh (km.at w p) }

  pub Keeps-try_finally :
      (m : Exec (World c) A) (k : World c → World c)
      → Keeps P m
      → ((w : World c) → (k w).db ≡ w.db)
      → Keeps P (try_finally m k)
  unfolding try_finally
  Keeps-try_finally m k km same_db = record { at = λ w p. rw (same_db (m w).0) (km.at w p) }

module _ (e : Engine) (c : Client) (worker : String) (now : ℕ) where
  note_event-Keeps :
      (id t : String) (info : Dict)
      → Keeps {c = c} IsConsistent
          (on_db (λ db. no_value (add_event e db now id t info (some worker))))
  note_event-Keeps id t info = Keeps-on_db _ λ db h r q.
      add_event-IsConsistent e db now id t info (some worker) r.0 h (no_value-eq-ok _ r q)

  ruleset worker_rules = (keeps_rules, move-Keeps)

  complete-Keeps :
      (id : String) (cur : JobState) (m : Processed)
      → Keeps IsConsistent (complete e c worker now id cur m)
  unfolding complete
  complete-Keeps id cur m = search worker_rules

  requeue_or_fail-Keeps :
      (id : String) (refreshed : Option JobRow)
      → Keeps IsConsistent (requeue_or_fail e c worker now id refreshed)
  unfolding requeue_or_fail
  requeue_or_fail-Keeps id refreshed = search worker_rules depth 9

  fail_retryable-Keeps :
      (id : String) (cur : JobState) (code : ErrorCode)
      → Keeps IsConsistent (fail_retryable e c worker now id cur code)
  unfolding fail_retryable
  fail_retryable-Keeps id cur code = search (worker_rules, requeue_or_fail-Keeps) depth 9

  fail_for_good-Keeps :
      (id : String) (cur : JobState) (m : Processed)
      → Keeps IsConsistent (fail_for_good e c worker now id cur m)
  unfolding fail_for_good
  fail_for_good-Keeps id cur m = search worker_rules depth 9

  settle-Keeps :
      (id : String) (cur : JobState) (m : Processed)
      → Keeps IsConsistent (settle e c worker now id cur m)
  unfolding settle
  settle-Keeps id cur m =
      search (worker_rules, complete-Keeps, fail_retryable-Keeps, fail_for_good-Keeps) depth 9

  note_stage-Keeps :
      (id : String) (cur : JobState) (stage : String) (info : Dict)
      → Keeps IsConsistent (note_stage e c worker now id cur stage info)
  unfolding note_stage
  note_stage-Keeps id cur stage info = search (worker_rules, note_event-Keeps) depth 9

  enter-Keeps :
      (t : Option JobState) (id : String) (cur : JobState) (stage : String) (info : Dict)
      → Keeps IsConsistent (enter e c worker now t id cur stage info)
  unfolding enter
  enter-Keeps none id cur stage info = note_stage-Keeps id cur stage info
  enter-Keeps (some target) id cur stage info = search (worker_rules, note_stage-Keeps) depth 9

  progress_all-Keeps :
      (id : String) (cur : JobState) (stages : List (String × Dict))
      → Keeps IsConsistent (progress_all e c worker now id cur stages)
  unfolding progress_all progress
  progress_all-Keeps id cur [] = Keeps-pure cur
  progress_all-Keeps id cur ((stage, info) ∷ rest) =
      Keeps-bind _ _ (enter-Keeps (stage_state stage) id cur stage info)
        (λ cur'. progress_all-Keeps id cur' rest)

  run_kind-Keeps :
      (k : Kind) (job : JobRow) (run : Job) → Keeps IsConsistent (run_kind e c worker now k job run)
  unfolding run_kind run_training run_processing finish_processing finish_training
  run_kind-Keeps train job run = search worker_rules depth 9
  run_kind-Keeps process job run = search (worker_rules, progress_all-Keeps, settle-Keeps) depth 9

  give_up-Keeps : (id message : String) → Keeps IsConsistent (give_up e c worker now id message)
  unfolding give_up
  give_up-Keeps id message = search worker_rules depth 9

  handle_claimed-Keeps :
      (id : String) (job : JobRow) (lease_s : ℕ) (run : Job) (message : String)
      → Keeps IsConsistent (handle_claimed e c worker now id job lease_s run message)
  unfolding handle_claimed guarded_run ack_job run_claimed
  handle_claimed-Keeps id job lease_s run message =
      Keeps-then _ _
        (Keeps-on_db _ λ db h r q. heartbeat-IsConsistent e db now worker (some id) lease_s h r q)
        (Keeps-try_finally _ (ack_job e c worker now id)
          (Keeps-try_except _ _ (run_kind-Keeps job.kind job run) (λ x. give_up-Keeps id message))
          (λ w. refl))

  queued_first : (k : Kind) → check_transition queued (first_state k) ≡ true
  unfolding check_transition first_state
  queued_first process = refl
  queued_first train = refl

  handle_claim-Keeps :
      (id : String) (r : Option JobRow) (lease_s : ℕ) (run : Job) (message : String)
      → Keeps IsConsistent (handle_claim e c worker now id r lease_s run message)
  unfolding handle_claim
  handle_claim-Keeps id none lease_s run message = Keeps-on_redis _
  handle_claim-Keeps id (some r) lease_s run message = handle_claimed-Keeps id r lease_s run message

  handle_found-Keeps :
      (id : String) (row : Option JobRow) (lease_s : ℕ) (run : Job) (message : String)
      → Keeps IsConsistent (handle_found e c worker now id row lease_s run message)
  unfolding handle_found
  handle_found-Keeps id none lease_s run message = Keeps-on_redis _
  handle_found-Keeps id (some row) lease_s run message =
      Keeps-bind _ _
        (claim-Keeps e c now id worker lease_s (first_state row.kind) (queued_first row.kind))
        (λ r. handle_claim-Keeps id r lease_s run message)

  -- Handling a job id keeps the histories legal and the ids unique, whatever the pipeline or the
  -- training reports and however it ends, whether the handler returns or raises.
  pub handle-Keeps :
      (id : String) (lease_s : ℕ) (run : Job) (message : String)
      → Keeps IsConsistent (handle e c worker now id lease_s run message)
  unfolding handle
  handle-Keeps id lease_s run message =
      Keeps-bind _ _ (Keeps-read_db _) (λ row. handle_found-Keeps id row lease_s run message)
