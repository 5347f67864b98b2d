-- ===== src/Examples/Isolation.antt =====
-- Runs of cad2ml/parsers/isolation.py.
use cad2ml.Prelude.{ℕ, ◌≡◌, ◌≤◌, ◌<◌, refl, inr, arith, List, [], ◌∷◌, none, some, String}
use cad2ml.Errors.{parser_timeout}
use cad2ml.Pipeline.{failed}
use cad2ml.Parsers.Isolation.{
  Limits, Turn, progress, ok, returns, run_isolated, last_message, child_messages,
}
use cad2ml.Parsers.Isolation.Answers.{
  run_isolated_answers, run_isolated_late, answer_to, timeout_error, InTime,
}

abbrev limits : Limits
limits = record {
  deadline = 60;
  stage = "parsing";
  timeout_code = parser_timeout;
  timeout_text = "60";
  exit_text = "-9";
}

abbrev turns : List (Turn String ℕ)
turns =
    record { clock = 0; arrival = 5; event = some (progress "meshing") }
    ∷ record { clock = 5; arrival = 9; event = some (ok 7) }
    ∷ record { clock = 9; arrival = 9; event = none }
    ∷ []

soon : (0 < 60) × (5 ≤ 60)
soon = (omega arith, omega arith)

in_time : InTime {P = String} {R = ℕ} limits turns
in_time = (soon, ((omega arith, omega arith), ((omega arith, omega arith), tt)))

run_isolated_answers_example :
    run_isolated limits turns ≡ ("meshing" ∷ [], answer_to limits (returns 7))
unfolding child_messages last_message
run_isolated_answers_example =
    run_isolated_answers limits ("meshing" ∷ []) (returns 7) turns (refl, (refl, refl)) in_time

abbrev slow : Turn String ℕ
slow = record { clock = 5; arrival = 99; event = some (ok 7) }

run_isolated_late_example :
    run_isolated limits
      (record { clock = 0; arrival = 5; event = some (progress "meshing") } ∷ slow ∷ [])
    ≡ ("meshing" ∷ [], failed (timeout_error limits))
run_isolated_late_example =
    run_isolated_late limits ("meshing" ∷ [])
      (record { clock = 0; arrival = 5; event = some (progress "meshing") } ∷ []) slow [] (refl, tt)
      (soon, tt) (inr (omega arith))
