-- ===== src/Examples/Jobs.antt =====
-- Runs of cad2ml/jobs on concrete tables.
use mathlib.Core.List.{Memᴰ}
use cad2ml.Prelude.{
  map, ℕ, zero, suc, ◌∷◌, ◌≡◌, ◌≤◌, ◌+◌, ◌*◌, refl, List, [], none, some, String, true, false,
  contains, All, ◌||◌, ◌↔◌,
}
use cad2ml.Errors.{storage_io_error, error_codes}
use cad2ml.Jobs.States.{
  queued, parsing, completed, failed_retryable, is_terminal, check_transition, is_in_flight, same,
}
use cad2ml.Jobs.States.Runs.{stay, advance, retry, Run-length, terminal-no-target}
use cad2ml.Jobs.Engine.{list_engine}
use cad2ml.Jobs.Db.{
  JobRow, process, transition, no_fields, ok, scalar_one_or_none, in_state, get_job, append_event,
}
use cad2ml.Jobs.Db.Cas.{Cas, transition-Cas}
use cad2ml.Jobs.Db.History.{IsConsistent}
use cad2ml.Jobs.Queue.{release_worker, queued_ids, enqueue}
use cad2ml.Jobs.Queue.Lists.{list_client}
use cad2ml.Jobs.Queue.Release.{Released, release_worker-Released}
use cad2ml.Jobs.Exec.{World}
use cad2ml.Jobs.Service.Invariant.{is_refused}
use cad2ml.Jobs.Service.Submitting.Race.{submit_job_raced}
use cad2ml.Jobs.Service.Submitting.{submit_job_once, alone, admitted}
use cad2ml.Jobs.Service.{
  Submission, new_job, has_file, claim, outcome_state, heartbeat, beat, extend_lease, claim_row,
  claimed,
}
use cad2ml.Jobs.Service.Submit.{submit_job}
use cad2ml.Jobs.Service.Recovery.{reap_expired_leases, reap_one, reconcile_queue, is_stale}
use cad2ml.Jobs.Service.Claim.{Claims, claim_cases, claim_once}
use cad2ml.Jobs.Service.System.{system-IsConsistent, here, next, beats, empty_db}
use cad2ml.Jobs.Service.Final.{terminal_is_final, state_at}
use cad2ml.Jobs.Service.Outcomes.{outcome_state_sound}
use cad2ml.Jobs.Service.Moves.{At}
use cad2ml.Jobs.Service.Reaper.{reap_one-At, handed_back, reaped_state}
use cad2ml.Jobs.Service.Reaping.{reap_expired_leases_lem, HasExpired, HasReaped}
use cad2ml.Jobs.Service.Reconciler.{reconcile_queue_complete}
use cad2ml.Examples.Scenes.{
  submission, waiting, running, done, to_done, running_row, idle, reserved, running_job,
}

system-IsConsistent_example : IsConsistent done
system-IsConsistent_example = system-IsConsistent list_engine to_done

transition-Cas_example :
    Cas list_engine running 5 "j1" parsing completed []
      (some "w1")
      no_fields
      (transition list_engine running 5 "j1" parsing completed [] (some "w1") no_fields)
transition-Cas_example =
    transition-Cas list_engine running 5 "j1" parsing completed [] (some "w1") no_fields (tt, tt)

claim_cases_example :
    Claims list_engine waiting 4 "j1" "w1" 60 parsing
      (claim list_engine waiting 4 "j1" "w1" 60 parsing)
claim_cases_example = claim_cases list_engine waiting 4 "j1" "w1" 60 parsing (tt, tt)

claim_once_example : claim list_engine running 6 "j1" "w2" 60 parsing ≡ ok (running, none)
unfolding claim same in_state claim_row get_job claimed append_event
claim_once_example =
    claim_once list_engine waiting running _ 4 6 "j1" "w1" "w2" 60 60 parsing parsing (tt, tt) refl
      refl

Run-length_example : 2 ≤ 8 + 6 * 1
unfolding check_transition
Run-length_example =
    Run-length {s = parsing} {t = queued}
      (retry (advance {t = parsing} {u = failed_retryable} stay (λ a b. cc) refl))

terminal-no-target_example :
    (is_terminal parsing ≡ true) ↔ ((d : _) → check_transition parsing d ≡ false)
terminal-no-target_example = terminal-no-target parsing

outcome_state_sound_example :
    (check_transition parsing (outcome_state storage_io_error) ≡ true)
    × (((error_codes storage_io_error).retryable ≡ true)
        ↔ (outcome_state storage_io_error ≡ failed_retryable))
    × (((error_codes storage_io_error).retryable ≡ false)
        ↔ (is_terminal (outcome_state storage_io_error) ≡ true))
unfolding is_in_flight
outcome_state_sound_example = outcome_state_sound storage_io_error parsing refl

release_worker-Released_example :
    Released list_client "w1" 0 reserved (release_worker list_client "w1" reserved)
release_worker-Released_example = release_worker-Released list_client "w1" reserved

-- A second submission, and tables in which it clashes with nothing.
abbrev second : Submission
second = record submission { idempotency_key = "key2" }

abbrev between : World list_client
between = record { db = running; redis = idle }

accepted_second : is_refused (new_job second "j2" "uuid" 9) running ≡ false
unfolding has_file new_job
accepted_second = refl

submit_job_once_example :
    (w' : World list_client) × (submit_job list_engine list_client second "j2" "uuid" 9
        (alone list_engine list_client 9)
        between
      ≡ (w', ok (some (admitted list_engine list_client 9 second "j2" "uuid"), true)))
    × (w'.db.jobs ≡ running_job ∷ admitted list_engine list_client 9 second "j2" "uuid" ∷ [])
    × (w'.redis ≡ enqueue list_client "j2" idle)
    × ((later : Submission) (id' uuid' : String) (now' : ℕ)
        → later.kind ≡ process
        → later.idempotency_key ≡ "key2"
        → submit_job list_engine list_client later id' uuid' now'
            (alone list_engine list_client now')
            w'
          ≡ (w', ok (some (admitted list_engine list_client 9 second "j2" "uuid"), false)))
submit_job_once_example =
    submit_job_once list_engine list_client 9 second "j2" "uuid" between accepted_second

-- The job of `running` comes in before the insertion of another submission under its key.
abbrev other_wins : ℕ → World list_client → World list_client
other_wins (suc zero) w = between
other_wins _ w = w

submit_job_raced_example :
    submit_job list_engine list_client submission "j2" "uuid" 9 other_wins
      (record { db = empty_db; redis = idle })
    ≡ (between, ok (some running_job, false))
submit_job_raced_example =
    submit_job_raced list_engine list_client 9 submission "j2" "uuid" other_wins
      (record { db = empty_db; redis = idle }) running_job refl refl refl

reap_one-At_example :
    (db' : _) × (reap_one list_engine list_client 100 running_job
        (record { db = running; redis = idle })
      ≡ (
        record { db = db'; redis = handed_back list_engine list_client 100 running_job idle },
        ok true,
      ))
    × At "j1" (reaped_state list_engine list_client 100 running_job) 1 2 db'
unfolding is_in_flight
reap_one-At_example =
    reap_one-At list_engine list_client 100 running_job (record { db = running; redis = idle }) refl
      running_row

reap_expired_leases_lem_example :
    (gone : List JobRow) × (w' : World list_client) × (reap_expired_leases list_engine list_client
        100 between
      ≡ (w', ok (map (λ (r : JobRow). r.job_id) gone)))
    × All (λ r. HasExpired list_engine list_client 100 r × Memᴰ r (running_job ∷ [])) gone
    × All (λ r. HasExpired list_engine list_client 100 r → Memᴰ r gone) (running_job ∷ [])
    × HasReaped list_engine list_client 100 gone between w'
reap_expired_leases_lem_example =
    reap_expired_leases_lem list_engine list_client 100 between (tt, tt)

reconcile_queue_complete_example :
    let (w', r) =
      reconcile_queue list_engine list_client 100 10 (record { db = waiting; redis = idle }) in
    All
      (λ row.
        is_stale 100 10 row ≡ true → contains (queued_ids list_client w'.redis) row.job_id ≡ true)
      waiting.jobs
    × ((missing : List String) × (r ≡ ok missing)
        × All (λ j. contains (queued_ids list_client idle) j ≡ false) missing
        × ((x : String)
            → contains (queued_ids list_client w'.redis) x
              ≡ (contains missing x || contains (queued_ids list_client idle) x)))
reconcile_queue_complete_example =
    reconcile_queue_complete list_engine list_client 100 10 (record { db = waiting; redis = idle })

terminal_is_final_example : state_at "j1" done.jobs ≡ some completed
unfolding state_at is_terminal heartbeat beat extend_lease scalar_one_or_none
terminal_is_final_example =
    terminal_is_final list_engine "j1" completed refl (system-IsConsistent list_engine to_done) refl
      (next here (beats 9 "w1" none 60 refl))
