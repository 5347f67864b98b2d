-- ===== src/Jobs/Service/Submitting.antt =====
-- A submission of cad2ml/jobs/service.py without interference: the first one under a key makes the job, and any later one finds it.
pub mod Race
use text.Mathlib.TextPositions.{eq_refl}
use cad2ml.Prelude.{
  ℕ, ◌≡◌, refl, Bool, true, false, List, [], ◌∷◌, ◌++◌, none, some, String, arith, any, keep,
}
use cad2ml.Jobs.States.{JobState, received, validated, queued, same, same_refl, check_transition}
use cad2ml.Jobs.Engine.{Engine}
use cad2ml.Jobs.Queue.{Client, enqueue}
use cad2ml.Jobs.Exec.{World, Exec, pure, on_db, read_db, on_redis, resume, ◌>>=◌, ◌>>◌}
use cad2ml.Jobs.Db.{
  JobRow, Kind, process, train, Database, Dict, ok, str, no_fields, moved, get_job,
  scalar_one_or_none, scalar_one, has_id,
}
use cad2ml.Jobs.Db.Rows.{Fresh, Located, keep-Located}
use cad2ml.Jobs.Db.Cas.{transition_won, after_move}
use cad2ml.Jobs.Service.{Submission, new_job, find_job, has_key, job_clash, move, same_kind}
use cad2ml.Jobs.Service.Submit.{submit_job, create_job, adopt_job, admit_job, others}
use cad2ml.Jobs.Service.Invariant.{
  is_refused, insert_job-new, insert_job-refused, inserted, Fresh-no_clash,
}

bind_ok :
    {S A B : Type 0} (m : Exec S A) (f : A → Exec S B) (s s' : S) (a : A)
    → m s ≡ (s', ok a)
    → (m >>= f) s ≡ f a s'
unfolding ◌>>=◌ resume
bind_ok m f s s' a h = rw h refl

then_ok :
    {S A B : Type 0} (m : Exec S A) (k : Exec S B) (s s' : S) (a : A)
    → m s ≡ (s', ok a)
    → (m >> k) s ≡ k s'
unfolding ◌>>◌
then_ok m k s s' a h = bind_ok m (λ _. k) s s' a h

-- A row at the end of a table without its id.
abbrev at_end :
    (id : String) (rows : List JobRow) (r : JobRow)
    → has_id id r ≡ true
    → Fresh id rows
    → Located id (rows ++ r ∷ [])
at_end id rows r h f = record {
  before = rows;
  row = r;
  after = [];
  split = refl;
  found = h;
  before_fresh = f;
  after_fresh = tt;
}

pub keep-none : (p : JobRow → Bool) (rows : List JobRow) → any p rows ≡ false → keep p rows ≡ []
keep-none p [] h = refl
keep-none p (r ∷ rows) h =
    let no : p r ≡ false = ground arith in
    let rest : any p rows ≡ false = ground arith in rw no (keep-none p rows rest)

keep-last :
    (p : JobRow → Bool) (rows : List JobRow) (r : JobRow)
    → any p rows ≡ false
    → p r ≡ true
    → keep p (rows ++ r ∷ []) ≡ r ∷ []
keep-last p [] r h last = rw last refl
keep-last p (x ∷ rows) r h last =
    let no : p x ≡ false = ground arith in
    let rest : any p rows ≡ false = ground arith in rw no (keep-last p rows r rest last)

-- A row that clashes with none has a key that none has.
key_free :
    (job : JobRow) (rows : List JobRow)
    → any (job_clash job) rows ≡ false
    → any (has_key job.kind job.idempotency_key) rows ≡ false
key_free job [] h = refl
key_free job (r ∷ rows) h = ground (arith, key_free job rows)

same_kind_refl : (k : Kind) → same_kind k k ≡ true
same_kind_refl process = refl
same_kind_refl train = refl

module _ (e : Engine) (c : Client) (now : ℕ) where
  -- Nothing happens meanwhile.
  abbrev pub alone : ℕ → World c → World c
  alone n w = w

  move_last :
      (w : World c) (rows : List JobRow) (r : JobRow) (src dst : JobState) (detail : Dict)
      → w.db.jobs ≡ rows ++ r ∷ []
      → Fresh r.job_id rows
      → r.state ≡ src
      → check_transition src dst ≡ true
      → (db' : Database) × (move e c now r.job_id src dst detail none no_fields w
          ≡ (record w { db = db' }, ok true))
        × (db'.jobs ≡ rows ++ record r { state = dst; updated_at = now } ∷ [])
  unfolding on_db moved
  move_last w rows r src dst detail split fresh at_ legal =
      let l : Located r.job_id w.db.jobs = record {
        before = rows;
        row = r;
        after = [];
        split = split;
        found = eq_refl r.job_id;
        before_fresh = fresh;
        after_fresh = tt;
      } in
      let here : same r.state src ≡ true = rw at_ (same_refl src) in
      (
        after_move w.db r.job_id l now dst detail none no_fields,
        rw (transition_won e w.db now r.job_id src dst detail none no_fields legal l here) refl,
        refl,
      )

  -- The row that a submission leaves.
  abbrev pub admitted : Submission → String → String → JobRow
  admitted s id uuid = record (new_job s id uuid now) { state = queued }

  admit_job_lem :
      (w : World c) (rows : List JobRow) (r : JobRow)
      → w.db.jobs ≡ rows ++ r ∷ []
      → Fresh r.job_id rows
      → r.state ≡ received
      → (db' : Database) × (admit_job e c now r.job_id alone w ≡ (
        record { db = db'; redis = enqueue c r.job_id w.redis },
        ok (some (record r { state = queued; updated_at = now }), true),
      ))
        × (db'.jobs ≡ rows ++ record r { state = queued; updated_at = now } ∷ [])
  unfolding admit_job others alone on_redis read_db pure ◌>>=◌ ◌>>◌ resume check_transition get_job
      scalar_one_or_none
  admit_job_lem w rows r split fresh at_ =
      let (db₁, p, q) =
        move_last w rows r received validated (("check", str "file registered") ∷ []) split fresh
          at_ refl in
      let r₁ : JobRow = record r { state = validated; updated_at = now } in
      let (db₂, p', q') =
        move_last (record w { db = db₁ }) rows r₁ validated queued [] q fresh refl refl in
      let r₂ : JobRow = record r { state = queued; updated_at = now } in
      let found : e.select (has_id r.job_id) db₂.jobs ≡ r₂ ∷ [] =
        rw (e.select_lem (has_id r.job_id) db₂.jobs, q')
          (keep-Located r.job_id (rows ++ r₂ ∷ [])
            (at_end r.job_id rows r₂ (eq_refl r.job_id) fresh)) in
      (db₂, rw (p, p', found) refl, q')

  found_again :
      (s : Submission) (id uuid : String) (w : World c) (rows : List JobRow) (row : JobRow)
      → w.db.jobs ≡ rows ++ row ∷ []
      → any (has_key s.kind s.idempotency_key) rows ≡ false
      → has_key s.kind s.idempotency_key row ≡ true
      → submit_job e c s id uuid now alone w ≡ (w, ok (some row, false))
  unfolding submit_job others read_db pure ◌>>=◌ ◌>>◌ resume find_job scalar_one_or_none
  found_again s id uuid w rows row split free here =
      let found : e.select (has_key s.kind s.idempotency_key) w.db.jobs ≡ row ∷ [] =
        rw (e.select_lem (has_key s.kind s.idempotency_key) w.db.jobs, split)
          (keep-last (has_key s.kind s.idempotency_key) rows row free here) in
      rw found refl

  created :
      (s : Submission) (id uuid : String) (w : World c)
      → is_refused (new_job s id uuid now) w.db ≡ false
      → (db' : Database) × (submit_job e c s id uuid now alone w ≡ (
        record { db = db'; redis = enqueue c id w.redis },
        ok (some (admitted s id uuid), true),
      ))
        × (db'.jobs ≡ w.db.jobs ++ admitted s id uuid ∷ [])
  unfolding submit_job create_job others read_db on_db pure ◌>>=◌ ◌>>◌ resume find_job
      scalar_one_or_none new_job
  created s id uuid w new =
      let job : JobRow = new_job s id uuid now in
      let clash : any (job_clash job) w.db.jobs ≡ false = ground arith in
      let none_found : e.select (has_key s.kind s.idempotency_key) w.db.jobs ≡ [] =
        rw (e.select_lem (has_key s.kind s.idempotency_key) w.db.jobs)
          (keep-none _ w.db.jobs (key_free job w.db.jobs clash)) in
      let (db', p, q) =
        admit_job_lem (record w { db = inserted w.db job now }) w.db.jobs job refl
          (Fresh-no_clash job w.db.jobs clash) refl in
      (db', rw (none_found, insert_job-new e job now w.db new) p, q)

-- Without interference, a submission whose file is known and whose id and key are on no row appends one queued row and
-- hands its id to the transport; any later submission under the same kind and key, whatever its id, file and parameters,
-- returns that row and changes nothing.
pub submit_job_once :
    (e : Engine) (c : Client) (now : ℕ) (s : Submission) (id uuid : String) (w : World c)
    → is_refused (new_job s id uuid now) w.db ≡ false
    → (w' : World c) × (submit_job e c s id uuid now (alone e c now) w
        ≡ (w', ok (some (admitted e c now s id uuid), true)))
      × (w'.db.jobs ≡ w.db.jobs ++ admitted e c now s id uuid ∷ [])
      × (w'.redis ≡ enqueue c id w.redis)
      × ((later : Submission) (id' uuid' : String) (now' : ℕ)
          → later.kind ≡ s.kind
          → later.idempotency_key ≡ s.idempotency_key
          → submit_job e c later id' uuid' now' (alone e c now') w'
            ≡ (w', ok (some (admitted e c now s id uuid), false)))
unfolding new_job
submit_job_once e c now s id uuid w new =
    let (db', p, q) = created e c now s id uuid w new in
    let job : JobRow = new_job s id uuid now in
    let clash : any (job_clash job) w.db.jobs ≡ false = ground arith in
    let w' : World c = record { db = db'; redis = enqueue c id w.redis } in
    (
      w',
      p,
      q,
      refl,
      λ later id' uuid' now' kind key.
          found_again e c now' later id' uuid' w' w.db.jobs (admitted e c now s id uuid) q
            (rw (kind, key) (key_free job w.db.jobs clash))
            (rw (kind, key, same_kind_refl s.kind, eq_refl s.idempotency_key) refl),
    )
