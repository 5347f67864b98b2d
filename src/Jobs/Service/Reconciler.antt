-- ===== src/Jobs/Service/Reconciler.antt =====
-- `reconcile_queue` of cad2ml/jobs/service.py: no durable queued job is missing from the transport.
use text.Mathlib.TextPositions.{eq_refl}
use cad2ml.Prelude.{
  All-map, ℕ, ◌≡◌, refl, ◌∙◌, inl, inr, Bool, List, [], ◌∷◌, String, true, false, arith, ◌||◌, not,
  str_eq, eq_iff, contains, keep, All, map, Bool-cases,
}
use cad2ml.Jobs.Engine.{Engine}
use cad2ml.Jobs.Queue.{Client, queue, enqueue, queued_ids}
use cad2ml.Jobs.Exec.{World}
use cad2ml.Jobs.Db.{JobRow, ok}
use cad2ml.Jobs.Service.Recovery.{is_stale, enqueue_all, reconcile_queue}

module _ (c : Client) where
  queued_ids-enqueue :
      (j : String) (s : c.Store) → queued_ids c (enqueue c j s) ≡ j ∷ queued_ids c s
  unfolding queued_ids enqueue
  queued_ids-enqueue j s = rw (c.lrange-lpush queue queue j s)

  -- After enqueueing a list, exactly its ids and the old ones are queued.
  contains-enqueue_all :
      (e : Engine) (js : List String) (s : c.Store) (x : String)
      → contains (queued_ids c (enqueue_all e c js s)) x
        ≡ (contains js x || contains (queued_ids c s) x)
  unfolding enqueue_all
  contains-enqueue_all e [] s x = refl
  contains-enqueue_all e (j ∷ js) s x =
      contains-enqueue_all e js (enqueue c j s) x ∙ rw (queued_ids-enqueue j s) (ground arith)

contains-keep_missing :
    (present ids : List String) (x : String)
    → contains ids x ≡ true
    → (contains (keep (λ j. not (contains present j)) ids) x || contains present x) ≡ true
contains-keep_missing present [] x h = cc
contains-keep_missing present (j ∷ ids) x h = elim (Bool-cases (str_eq j x)) [
  | inl q ↦ ground (arith, eq_iff j x)
  | inr q ↦ ground (arith, contains-keep_missing present ids x)
]

contains-ids :
    (p : JobRow → Bool) (rows : List JobRow)
    → All
        (λ (r : JobRow).
          p r ≡ true → contains (map (λ (x : JobRow). x.job_id) (keep p rows)) r.job_id ≡ true)
        rows
contains-ids p [] = tt
contains-ids p (r ∷ rows) = (
  λ h. rw (h, eq_refl r.job_id),
  All-map _ _ rows (λ x f h. still x.job_id (f h)) (contains-ids p rows),
)
  where
    still :
        (x : String)
        → contains (map (λ (y : JobRow). y.job_id) (keep p rows)) x ≡ true
        → contains (map (λ (y : JobRow). y.job_id) (keep p (r ∷ rows))) x ≡ true
    still x h = ground arith

missing_absent :
    (present ids : List String)
    → All (λ j. contains present j ≡ false) (keep (λ j. not (contains present j)) ids)
missing_absent present [] = tt
missing_absent present (j ∷ ids) = elim (Bool-cases (contains present j)) [
  | inl q ↦ rw q (missing_absent present ids)
  | inr q ↦ rw q (q, missing_absent present ids)
]

-- After the reconciler every stale queued job of the database is in the transport; the ids that it
-- has put there, which it returns, were not; and what was there still is.
pub reconcile_queue_complete :
    (e : Engine) (c : Client) (now min_age_s : ℕ) (w : World c)
    → let (w', r) = reconcile_queue e c now min_age_s w in
      All
        (λ (row : JobRow).
          is_stale now min_age_s row ≡ true → contains (queued_ids c w'.redis) row.job_id ≡ true)
        w.db.jobs
      × ((missing : List String) × (r ≡ ok missing)
          × All (λ j. contains (queued_ids c w.redis) j ≡ false) missing
          × ((x : String)
              → contains (queued_ids c w'.redis) x
                ≡ (contains missing x || contains (queued_ids c w.redis) x)))
unfolding reconcile_queue
reconcile_queue_complete e c now min_age_s w = (
  All-map _ _ w.db.jobs
      (λ row f h.
        contains-enqueue_all c e missing w.redis row.job_id
        ∙ contains-keep_missing (queued_ids c w.redis) ids row.job_id (rw e.select_lem (f h)))
      (contains-ids (is_stale now min_age_s) w.db.jobs),
  (
    missing,
    refl,
    missing_absent (queued_ids c w.redis) ids,
    contains-enqueue_all c e missing w.redis,
  ),
)
  where
    ids : List String
    ids = map (λ (r : JobRow). r.job_id) (e.select (is_stale now min_age_s) w.db.jobs)

    missing : List String
    missing = keep (λ j. not (contains (queued_ids c w.redis) j)) ids
