-- ===== src/Jobs/Service/Keeping.antt =====
-- The actions of cad2ml/jobs/service.py on database and transport keep the histories, whether they
-- return or raise.
use cad2ml.Prelude.{
  ℕ, ◌≡◌, refl, ap, sym, inl, inr, true, Option, none, some, String, Bool-cases, str_eq,
}
use cad2ml.Jobs.States.{JobState, queued, check_transition}
use cad2ml.Jobs.Engine.{Engine}
use cad2ml.Jobs.Queue.{Client}
use cad2ml.Jobs.Exec.{World, on_db}
use cad2ml.Jobs.Exec.Keeps.{Keeps, Keeps-on_db}
use cad2ml.Jobs.Db.{Result-cases, Database, Dict, Fields, ok}
use cad2ml.Jobs.Db.History.{IsConsistent, transition-IsConsistent}
use cad2ml.Jobs.Service.{move, heartbeat, extend_lease, beat, held_by, claim}
use cad2ml.Jobs.Service.Recovery.{reconcile_queue}
use cad2ml.Jobs.Service.Invariant.{claim-IsConsistent, map_where-IsConsistent, ok_eq}

module _ (e : Engine) (c : Client) where
  pub move-Keeps :
      (now : ℕ) (id : String) (src dst : JobState) (detail : Dict) (worker : Option String)
      (fields : Fields)
      → Keeps IsConsistent (move e c now id src dst detail worker fields)
  move-Keeps now id src dst detail worker fields =
      Keeps-on_db _
        λ db h r q. transition-IsConsistent e db now id src dst detail worker fields r h q

  pub claim-Keeps :
      (now : ℕ) (id worker : String) (lease_s : ℕ) (first : JobState)
      → check_transition queued first ≡ true
      → Keeps {c = c} IsConsistent (on_db (λ db. claim e db now id worker lease_s first))
  claim-Keeps now id worker lease_s first legal =
      Keeps-on_db _ λ db h r q. claim-IsConsistent e db now id worker lease_s first r h legal q

extend_lease-IsConsistent :
    (e : Engine) (db : Database) (now : ℕ) (worker : String) (job_id : Option String) (lease_s : ℕ)
    → IsConsistent db
    → IsConsistent (record db { jobs = extend_lease e now worker job_id lease_s db.jobs })
unfolding extend_lease
extend_lease-IsConsistent e db now worker none lease_s h = h
extend_lease-IsConsistent e db now worker (some id) lease_s h = elim (Bool-cases (str_eq id "")) [
  | inl t ↦ rw t h
  | inr t ↦
      rw (t, e.update_lem (held_by e worker id) _ db.jobs)
        (map_where-IsConsistent db _ _ (λ r. refl) (λ r. refl) h)
]

pub heartbeat-IsConsistent :
    (e : Engine) (db : Database) (now : ℕ) (worker : String) (job_id : Option String) (lease_s : ℕ)
    → IsConsistent db
    → (r : Database × Unit {0}) → heartbeat e db now worker job_id lease_s ≡ ok r
    → IsConsistent r.0
unfolding heartbeat
heartbeat-IsConsistent e db now worker job_id lease_s h r q =
    elim (Result-cases (beat e db.workers now worker job_id)) [
      | inl (x, b) ↦ cc (rw (b, heartbeat) at q)
      | inr (ws, b) ↦
          let k = extend_lease-IsConsistent e db now worker job_id lease_s h in
          rw (ap (λ (x : Database × Unit {0}). x.0) (ok_eq (sym (rw (b, heartbeat) at q))))
            (record { unique = k.unique; followed = k.followed; orphans = k.orphans })
    ]

-- The reconciler leaves the database as it is.
pub reconcile_queue-db :
    (e : Engine) (c : Client) (now min_age_s : ℕ) (w : World c)
    → (reconcile_queue e c now min_age_s w).0.db ≡ w.db
unfolding reconcile_queue
reconcile_queue-db e c now min_age_s w = refl
