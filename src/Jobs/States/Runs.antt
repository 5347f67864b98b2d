-- ===== src/Jobs/States/Runs.antt =====
-- Runs of the state machine of cad2ml/jobs/states.py.
use cad2ml.Prelude.{ℕ, suc, ◌≡◌, ◌↔◌, true, false, arith, refl, ◌+◌, ◌<◌, ◌≤◌, ◌*◌}
use cad2ml.Jobs.States.{
  JobState, received, validated, queued, parsing, normalizing, extracting, validating_outputs,
  training, completed, failed_retryable, failed_terminal, check_transition, is_terminal,
  is_in_flight,
}

-- A state is terminal exactly when no transition leaves it.
pub terminal-no-target :
    (s : JobState) → (is_terminal s ≡ true) ↔ ((d : JobState) → check_transition s d ≡ false)
unfolding is_terminal check_transition
terminal-no-target received = (λ h. cc, λ h. cc (h validated))
terminal-no-target validated = (λ h. cc, λ h. cc (h queued))
terminal-no-target queued = (λ h. cc, λ h. cc (h parsing))
terminal-no-target parsing = (λ h. cc, λ h. cc (h completed))
terminal-no-target normalizing = (λ h. cc, λ h. cc (h extracting))
terminal-no-target extracting = (λ h. cc, λ h. cc (h validating_outputs))
terminal-no-target validating_outputs = (λ h. cc, λ h. cc (h completed))
terminal-no-target training = (λ h. cc, λ h. cc (h completed))
terminal-no-target failed_retryable = (λ h. cc, λ h. cc (h queued))
terminal-no-target _ = (λ h d. refl, λ h. refl)

-- From a state that is not terminal the job can be failed for good.
pub nonterminal_can_fail :
    (s : JobState) → is_terminal s ≡ false → check_transition s failed_terminal ≡ true
unfolding is_terminal check_transition
nonterminal_can_fail s h = ground arith

-- From a state in flight the job can be lost with its worker.
pub in_flight_can_retry :
    (s : JobState) → is_in_flight s ≡ true → check_transition s failed_retryable ≡ true
unfolding is_in_flight check_transition
in_flight_can_retry s h = ground arith

pub height : JobState → ℕ
height received = 0
height validated = 1
height queued = 2
height parsing = 3
height training = 3
height normalizing = 4
height extracting = 5
height validating_outputs = 6
height failed_retryable = 7
height _ = 8

-- A run with `n` transitions, `r` of them from `failed_retryable` back to `queued`.
pub data Run (s : JobState) : ℕ → ℕ → JobState → Type 0 where
  stay : Run s 0 0 s
  advance :
      {n r : ℕ} {t u : JobState}
      → Run s n r t
      → (t ≡ failed_retryable → u ≡ queued → ⊥)
      → check_transition t u ≡ true
      → Run s (suc n) r u
  retry : {n r : ℕ} → Run s n r failed_retryable → Run s (suc n) (suc r) queued

advance_rises :
    (t u : JobState)
    → (t ≡ failed_retryable → u ≡ queued → ⊥)
    → check_transition t u ≡ true
    → height t < height u
unfolding height check_transition
advance_rises failed_retryable queued ne h = absurd (ne refl refl)
advance_rises t u ne h = ground arith

-- Between two states a run has at most 8 transitions and 6 more for each retry: only a retry goes
-- back, so a job whose retries are bounded comes to rest.
pub Run-bound : {s t : JobState} {n r : ℕ} → Run s n r t → n + height s ≤ height t + 6 * r
unfolding height
Run-bound stay = omega arith
Run-bound (advance {t = t} {u = u} run ne h) = omega (arith, Run-bound run, advance_rises t u ne h)
Run-bound (retry run) = omega (arith, Run-bound run)

height-le : (s : JobState) → height s ≤ 8
unfolding height
height-le received = omega arith
height-le _ = omega arith

-- A run with `r` retries has at most 8 + 6 r transitions.
pub Run-length : {s t : JobState} {n r : ℕ} → Run s n r t → n ≤ 8 + 6 * r
Run-length {t = t} run = omega (arith, Run-bound run, height-le t)

-- No run leaves a terminal state.
pub Run-terminal : {s t : JobState} {n r : ℕ} → is_terminal s ≡ true → Run s n r t → t ≡ s
unfolding is_terminal
Run-terminal h stay = refl
Run-terminal {s} h (advance {t = t} {u = u} run ne c) =
    cc ((terminal-no-target s).0 h u, Run-terminal h run, c)
Run-terminal {s} h (retry run) = cc (h, Run-terminal h run)
