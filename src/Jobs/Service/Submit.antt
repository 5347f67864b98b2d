-- ===== src/Jobs/Service/Submit.antt =====
-- `submit_job` of cad2ml/jobs/service.py, session by session.
use cad2ml.Prelude.{ℕ, Bool, true, false, [], ◌∷◌, Option, none, some, String, if◌then◌else◌}
use cad2ml.Jobs.States.{received, validated, queued}
use cad2ml.Jobs.Engine.{Engine}
use cad2ml.Jobs.Db.{JobRow, Kind, str, no_fields, ok, get_job, scalar_one}
use cad2ml.Jobs.Queue.{Client, enqueue}
use cad2ml.Jobs.Exec.{World, Exec, pure, on_db, read_db, on_redis, ◌>>=◌, ◌>>◌}
use cad2ml.Jobs.Service.{Submission, new_job, insert_job, find_job, has_key, move}

module _ (e : Engine) (c : Client) where
  -- What other sessions and clients do meanwhile.
  unfoldable pub others : (World c → World c) → Exec (World c) (Unit {0})
  others f w = (f w, ok tt)

  -- From the insertion on: the job is validated, queued and handed to the transport.
  unfoldable pub admit_job :
      ℕ → String → (ℕ → World c → World c) → Exec (World c) (Option JobRow × Bool)
  admit_job now job_id meanwhile = do
    others (meanwhile 2)
    move e c now job_id received validated (("check", str "file registered") ∷ []) none no_fields
    others (meanwhile 3)
    move e c now job_id validated queued [] none no_fields
    others (meanwhile 4)
    on_redis (enqueue c job_id)
    others (meanwhile 5)
    row ← read_db (λ db. get_job e db job_id)
    pure (row, true)

  -- The insertion has failed: a concurrent identical submission won the race.
  unfoldable pub adopt_job :
      Kind → String → (ℕ → World c → World c) → Exec (World c) (Option JobRow × Bool)
  adopt_job kind key meanwhile = do
    others (meanwhile 2)
    row ← read_db (λ db. scalar_one (e.select (has_key kind key) db.jobs))
    pure (some row, false)

  unfoldable pub create_job :
      Submission
      → String
      → String
      → ℕ
      → (ℕ → World c → World c)
      → Exec (World c) (Option JobRow × Bool)
  create_job s job_id uuid now meanwhile = do
    others (meanwhile 1)
    inserted ← on_db (insert_job e (new_job s job_id uuid now) now)
    if inserted
        then admit_job now job_id meanwhile
        else adopt_job s.kind s.idempotency_key meanwhile

  -- `meanwhile n` is what happens between the session or the call number `n` of a submission and the one
  -- before it; `meanwhile 0` comes before the look-up.
  unfoldable pub submit_job :
      Submission
      → String
      → String
      → ℕ
      → (ℕ → World c → World c)
      → Exec (World c) (Option JobRow × Bool)
  submit_job s job_id uuid now meanwhile = do
    others (meanwhile 0)
    existing ← read_db (find_job e s.kind s.idempotency_key)
    elim existing [
      | some row ↦ pure (some row, false)
      | none ↦ create_job s job_id uuid now meanwhile
    ]
