-- ===== src/Examples/Worker.antt =====
-- Runs of apps/worker/main.py on concrete tables.
use cad2ml.Prelude.{refl}
use cad2ml.Jobs.States.{parsing}
use cad2ml.Jobs.Engine.{list_engine}
use cad2ml.Jobs.Db.History.{IsConsistent}
use cad2ml.Jobs.Queue.Lists.{list_client}
use cad2ml.Jobs.Exec.Keeps.{Keeps}
use cad2ml.Worker.{handle, guarded_run, progress_all, first_state}
use cad2ml.Worker.Keeping.{handle-Keeps}
use cad2ml.Worker.Rests.{Rested, guarded_run-Rested}
use cad2ml.Worker.Tracks.{Tracked, progress_all-Tracked}
use cad2ml.Examples.Scenes.{running, running_row, reserved, flaky, running_job}

handle-Keeps_example :
    Keeps IsConsistent (handle list_engine list_client "w1" 9 "j1" 60 flaky "boom")
handle-Keeps_example = handle-Keeps list_engine list_client "w1" 9 "j1" 60 flaky "boom"

guarded_run-Rested_example : Rested {c = list_client} "j1" 1 2 (
    guarded_run list_engine list_client "w1" 9 "j1" running_job flaky "boom"
      (record { db = running; redis = reserved }))
unfolding first_state
guarded_run-Rested_example =
    guarded_run-Rested list_engine list_client "w1" 9 "j1" 1 2 running_job flaky "boom"
      (record { db = running; redis = reserved }) refl running_row

progress_all-Tracked_example : Tracked {c = list_client} "j1" 1 2 (
    progress_all list_engine list_client "w1" 9 "j1" parsing flaky.stages
      (record { db = running; redis = reserved }))
progress_all-Tracked_example =
    progress_all-Tracked list_engine list_client "w1" 9 "j1" parsing flaky.stages
      (record { db = running; redis = reserved }) running_row
