-- ===== src/Api/Replies.antt =====
-- What the handlers of apps/api/main.py keep, whatever they reply.
use mathlib.Core.Path.{subst}
use cad2ml.Prelude.{
  ℕ, ◌≡◌, refl, inl, inr, Bool, true, false, Option, none, some, String, arith, Bool-cases,
}
use cad2ml.Jobs.Engine.{Engine}
use cad2ml.Jobs.Queue.{Client}
use cad2ml.Jobs.Exec.{World}
use cad2ml.Jobs.Db.{Database, FileRow, JobRow, Result, ok, err}
use Prim.Native.String.{◌++◌ as join_text}
use cad2ml.Jobs.Service.{register_file}
use cad2ml.Storage.{ArtifactStore}
use cad2ml.Storage.Paths.{Path_, same_path, same_path→eq}
use cad2ml.Pipeline.{source_key, IntakeResult}
use cad2ml.Ingestion.{Contents, IngestionConfig, Inspection, accepted, refused, inspect_upload}
use cad2ml.Api.{
  upload_name, Reply, declined, rejected_upload, State, Settings, JobRequest, store_upload,
  registered, upload, submitted, submit_request, submit_process, looked_up, request_job, inspected,
  find_file_row, source_key_text, process_idempotency_key,
}

abbrev pub is_declined {ℓ} : {A : Type ℓ} → Reply A → Bool
is_declined (declined n t) = true
is_declined (rejected_upload n x) = true
is_declined _ = false

module _ (e : Engine) (c : Client) (b : Contents) (st : ArtifactStore b.Data) where
  registered-store :
      (s : State e c b st) (r : Result (Database × (FileRow × Bool)))
      → (registered e c b st s r).0.store ≡ s.store
  unfolding registered
  registered-store s (err x) = refl
  registered-store s (ok (db, (row, created))) = refl

  registered_accepts :
      (s : State e c b st) (r : Result (Database × (FileRow × Bool)))
      → is_declined (registered e c b st s r).1 ≡ false
  unfolding registered
  registered_accepts s (err x) = refl
  registered_accepts s (ok (db, (row, created))) = refl

  submitted_accepts :
      (s : State e c b st) (r : World c × Result (Option JobRow × Bool))
      → is_declined (submitted e c b st s r).1 ≡ false
  unfolding submitted
  submitted_accepts s (w, err x) = refl
  submitted_accepts s (w, ok (job, created)) = refl

  store_upload_keeps :
      (sha : String) (data_ : b.Data) (s : st.State) (j : Path_) (x : b.Data)
      → st.get_bytes s j ≡ some x
      → st.get_bytes (store_upload e c b st sha data_ s) j ≡ some x
  unfolding store_upload
  store_upload_keeps sha data_ s j x h = elim (Bool-cases (st.exists s (source_key sha))) [
    | inl q ↦ rw q h
    | inr q ↦
        rw (q, st.get-put (source_key sha) j data_ s)
          (elim (Bool-cases (same_path (source_key sha) j)) [
            | inl k ↦
                let there : st.exists s j ≡ true = st.exists_file j s x h in
                let same_ : source_key sha ≡ j = same_path→eq (source_key sha) j k in
                let gone : st.exists s j ≡ false = subst (λ z. st.exists s z ≡ false) same_ q in
                ground arith
            | inr k ↦ rw k h
          ])
  ]

  -- The source that an accepted upload registers.
  abbrev stored_for : IntakeResult → b.Data → State e c b st → State e c b st
  stored_for intake data_ s = record {
    world = s.world;
    store = store_upload e c b st intake.sha256 data_ s.store;
  }

  inspected_keeps :
      (i : Inspection) (data_ : b.Data) (now : ℕ) (file_id : String) (s : State e c b st)
      (j : Path_) (x : b.Data)
      → st.get_bytes s.store j ≡ some x
      → st.get_bytes (inspected e c b st i data_ now file_id s).0.store j ≡ some x
  unfolding inspected
  inspected_keeps (refused y) data_ now file_id s j x h = h
  inspected_keeps (accepted intake) data_ now file_id s j x h =
      rw
        (registered-store (stored_for intake data_ s) (
          register_file e s.world.db now file_id intake.sha256 intake.filename intake.size_bytes
            (source_key_text intake.sha256)))
        (store_upload_keeps intake.sha256 data_ s.store j x h)

  inspected_declined :
      (i : Inspection) (data_ : b.Data) (now : ℕ) (file_id : String) (s : State e c b st)
      → is_declined (inspected e c b st i data_ now file_id s).1 ≡ true
      → (inspected e c b st i data_ now file_id s).0 ≡ s
  unfolding inspected
  inspected_declined (refused y) data_ now file_id s h = refl
  inspected_declined (accepted intake) data_ now file_id s h =
      let no = registered_accepts (stored_for intake data_ s) (
        register_file e s.world.db now file_id intake.sha256 intake.filename intake.size_bytes
          (source_key_text intake.sha256)) in
      cc

  submit_process_accepts :
      (key : String) (settings : Settings) (req : JobRequest) (f : FileRow)
      (cid job_id uuid : String) (now : ℕ) (meanwhile : ℕ → World c → World c) (s : State e c b st)
      → is_declined (submit_process e c b st key settings req f cid job_id uuid now meanwhile s).1
        ≡ false
  unfolding submit_process
  submit_process_accepts key settings req f cid job_id uuid now meanwhile s = submitted_accepts s _

  submit_request_declined :
      (key : String) (settings : Settings) (req : JobRequest) (f : FileRow)
      (cid job_id uuid : String) (now : ℕ) (meanwhile : ℕ → World c → World c) (s : State e c b st)
      → is_declined (submit_request e c b st key settings req f cid job_id uuid now meanwhile s).1
        ≡ true
      → (submit_request e c b st key settings req f cid job_id uuid now meanwhile s).0 ≡ s
  unfolding submit_request
  submit_request_declined key settings req f cid job_id uuid now meanwhile s h = ground (
    arith,
    submit_process_accepts key settings req f cid job_id uuid now meanwhile s,
    submit_process_accepts (join_text key (join_text ":fault:" uuid)) settings req f cid job_id uuid
        now meanwhile s,
  )

  looked_up_declined :
      (r : Result (Option FileRow)) (settings : Settings) (req : JobRequest)
      (cid job_id uuid : String) (now : ℕ) (meanwhile : ℕ → World c → World c) (s : State e c b st)
      → is_declined (looked_up e c b st r settings req cid job_id uuid now meanwhile s).1 ≡ true
      → (looked_up e c b st r settings req cid job_id uuid now meanwhile s).0 ≡ s
  unfolding looked_up
  looked_up_declined (err x) settings req cid job_id uuid now meanwhile s h = cc
  looked_up_declined (ok none) settings req cid job_id uuid now meanwhile s h = refl
  looked_up_declined (ok (some f)) settings req cid job_id uuid now meanwhile s h =
      submit_request_declined (process_idempotency_key settings f.sha256) settings req f cid job_id
        uuid now meanwhile s h

  -- An upload changes no bytes that the store has, whatever it replies.
  pub upload_keeps :
      (cfg : IngestionConfig) (filename : Option String) (data_ : b.Data) (now : ℕ)
      (file_id : String) (s : State e c b st) (j : Path_) (x : b.Data)
      → st.get_bytes s.store j ≡ some x
      → st.get_bytes (upload e c b st cfg filename data_ now file_id s).0.store j ≡ some x
  unfolding upload
  upload_keeps cfg filename data_ now file_id s j x h =
      inspected_keeps (inspect_upload b (upload_name filename) data_ cfg) data_ now file_id s j x h

  -- An upload that is declined leaves the tables, the transport and the store as they are.
  pub upload_declined :
      (cfg : IngestionConfig) (filename : Option String) (data_ : b.Data) (now : ℕ)
      (file_id : String) (s : State e c b st)
      → is_declined (upload e c b st cfg filename data_ now file_id s).1 ≡ true
      → (upload e c b st cfg filename data_ now file_id s).0 ≡ s
  unfolding upload
  upload_declined cfg filename data_ now file_id s h =
      inspected_declined (inspect_upload b (upload_name filename) data_ cfg) data_ now file_id s h

  -- A request for a job that is declined (an unknown file, or faults where they are disabled) leaves the
  -- tables, the transport and the store as they are.
  pub request_job_declined :
      (settings : Settings) (req : JobRequest) (cid job_id uuid : String) (now : ℕ)
      (meanwhile : ℕ → World c → World c) (s : State e c b st)
      → is_declined (request_job e c b st settings req cid job_id uuid now meanwhile s).1 ≡ true
      → (request_job e c b st settings req cid job_id uuid now meanwhile s).0 ≡ s
  unfolding request_job
  request_job_declined settings req cid job_id uuid now meanwhile s h =
      looked_up_declined (find_file_row e c b st s.world.db req.file_id) settings req cid job_id
        uuid now meanwhile s h
