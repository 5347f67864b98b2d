-- ===== src/Jobs/Service/Submitting/Race.antt =====
-- A submission of cad2ml/jobs/service.py that another one under the same key overtakes.
use cad2ml.Prelude.{ℕ, ◌≡◌, refl, true, false, List, [], ◌∷◌, some, String, arith, any, keep}
use cad2ml.Jobs.Engine.{Engine}
use cad2ml.Jobs.Queue.{Client}
use cad2ml.Jobs.Exec.{World, pure, on_db, read_db, resume, ◌>>=◌, ◌>>◌}
use cad2ml.Jobs.Db.{JobRow, ok, scalar_one_or_none, scalar_one}
use cad2ml.Jobs.Service.{Submission, new_job, find_job, has_key, job_clash}
use cad2ml.Jobs.Service.Submit.{submit_job, create_job, adopt_job, others}
use cad2ml.Jobs.Service.Invariant.{is_refused, insert_job-refused}
use cad2ml.Jobs.Service.Submitting.{keep-none}

key_taken :
    (job : JobRow) (rows : List JobRow)
    → any (has_key job.kind job.idempotency_key) rows ≡ true
    → any (job_clash job) rows ≡ true
key_taken job [] h = cc
key_taken job (r ∷ rows) h = ground (arith, key_taken job rows)

-- A submission that finds no row under its key, while another session inserts one before its own insertion, adds none: it
-- returns the row that the table then has under the key, and neither the tables nor the transport are changed by it.
pub submit_job_raced :
    (e : Engine) (c : Client) (now : ℕ) (s : Submission) (id uuid : String)
    (meanwhile : ℕ → World c → World c) (w : World c) (row : JobRow)
    → any (has_key s.kind s.idempotency_key) (meanwhile 0 w).db.jobs ≡ false
    → any (has_key s.kind s.idempotency_key) (meanwhile 1 (meanwhile 0 w)).db.jobs ≡ true
    → keep (has_key s.kind s.idempotency_key) (meanwhile 2 (meanwhile 1 (meanwhile 0 w))).db.jobs
      ≡ row ∷ []
    → submit_job e c s id uuid now meanwhile w
      ≡ (meanwhile 2 (meanwhile 1 (meanwhile 0 w)), ok (some row, false))
unfolding submit_job create_job adopt_job others read_db on_db pure ◌>>=◌ ◌>>◌ resume find_job
    scalar_one_or_none scalar_one new_job
submit_job_raced e c now s id uuid meanwhile w row free raced one =
    let job : JobRow = new_job s id uuid now in
    let w₁ : World c = meanwhile 1 (meanwhile 0 w) in
    let w₂ : World c = meanwhile 2 w₁ in
    let none_found : e.select (has_key s.kind s.idempotency_key) (meanwhile 0 w).db.jobs ≡ [] =
      rw (e.select_lem (has_key s.kind s.idempotency_key) (meanwhile 0 w).db.jobs)
        (keep-none _ (meanwhile 0 w).db.jobs free) in
    let refused : is_refused job w₁.db ≡ true = ground (arith, key_taken job w₁.db.jobs raced) in
    let found : e.select (has_key s.kind s.idempotency_key) w₂.db.jobs ≡ row ∷ [] =
      rw (e.select_lem (has_key s.kind s.idempotency_key) w₂.db.jobs) one in
    rw (none_found, insert_job-refused e job now w₁.db refused, found) refl
