-- ===== src/Jobs/Service/Outcomes.antt =====
-- The error codes of cad2ml/errors.py as outcomes of jobs: `outcome_state` of
-- cad2ml/jobs/service.py beside the table of transitions.
use cad2ml.Prelude.{◌≡◌, ◌↔◌, true, false, arith}
use cad2ml.Errors.{ErrorCode, error_codes}
use cad2ml.Jobs.States.{JobState, failed_retryable, is_in_flight, is_terminal, check_transition}
use cad2ml.Jobs.Service.{outcome_state}

-- A code is marked retryable exactly when its jobs go to `failed_retryable`; the jobs of all other
-- codes go to a terminal state. From every state in flight the move is legal.
pub outcome_state_sound :
    (code : ErrorCode) (s : JobState)
    → is_in_flight s ≡ true
    → (check_transition s (outcome_state code) ≡ true)
      × (((error_codes code).retryable ≡ true) ↔ (outcome_state code ≡ failed_retryable))
      × (((error_codes code).retryable ≡ false) ↔ (is_terminal (outcome_state code) ≡ true))
unfolding outcome_state check_transition is_in_flight is_terminal
outcome_state_sound code s h = ground arith
