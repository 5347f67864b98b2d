-- ===== src/Lib.antt =====
-- CAD2ML turns uploaded STEP files into datasets. This library models the job core that the API and
-- the workers share, the pipeline that turns one upload into a manifest, the recognizer of features on
-- the faces of a part, and the builder of datasets.
--
-- The program's parts and their files here:
--   cad2ml/errors.py           Errors: the error codes and their outcomes.
--   cad2ml/jobs/states.py      Jobs/States: the states of a job and the table of transitions
--                              (TRANSITIONS is `transitions`, check_transition answers a Bool).
--   cad2ml/jobs/db.py          Jobs/Db: the tables as lists of rows, `transition`, `add_event`.
--                              Jobs/Engine is the database engine, a parameter with the documented
--                              meaning of its statements. A session that raises is an `err`, and
--                              the tables stay as they were.
--   cad2ml/jobs/queue.py       Jobs/Queue: JobQueue over the record `Client` of list commands.
--   cad2ml/jobs/service.py     Jobs/Service: insertion of jobs, claim, heartbeat; Jobs/Service/Submit:
--                              submit_job; Jobs/Service/Recovery: the reaper and the reconciler. Jobs/Exec
--                              holds the actions on tables and transport, where an exception keeps what
--                              was committed before it.
--   cad2ml/storage/base.py     Storage: the interface ArtifactStore, with laws on what is read after
--                              a write; Storage/Local is a store of files that meets them.
--   cad2ml/pipeline.py         Pipeline: keys, manifests and `Env`, which stands for the intake, the
--                              isolated children and hashing. Pipeline/Process: process_source and
--                              _finalize_failure, one function for each part of the `try`.
--   cad2ml/parsers/isolation.py  Parsers/Isolation: what a child sends, and the loop of
--                              run_isolated over what arrives and when.
--   cad2ml/evaluation/metrics.py  Evaluation/Metrics: the confusion matrix as rows, and the counts
--                              of classification_report.
--   cad2ml/semantics/recognizer.py  Semantics/Records: faces, edges, features and `Floats`, the numbers;
--                              Semantics/Context: _Ctx and observe; Semantics/Walks: the loops over
--                              adjacent faces; Semantics/Rules: the four rules, one file for each;
--                              Semantics/Recognize: recognize and face_labels_from_features.
--   cad2ml/datasets/builder.py Datasets/Selection: which manifests are taken; Datasets/Clusters and
--                              Prelude/Forest: near duplicates and _UF; Datasets/Splits: assign_splits,
--                              the split units and check_leakage; Datasets/Saving: the stored version,
--                              and _dataset of apps/api/main.py.
--   cad2ml/ingestion/intake.py  Ingestion: inspect_upload; bytes and text functions are a parameter.
--   apps/api/main.py           Api: uploads, requests for jobs and the readers of a job, with their
--                              statuses; create_job is `request_job`.
--   apps/worker/main.py        Worker: Worker.handle with _run_processing and _run_training.
--
-- The API submits jobs into the tables and the transport; a worker reserves an id, claims the row by
-- a compare-and-set, runs the pipeline and moves the row as the stages are reported; the reaper takes
-- jobs from workers whose lease has run out; the reconciler fills the transport from the tables.
-- Sessions of different processes interleave: Jobs/Service/System has one step for each committed
-- session. What other sessions and clients do before each of the sessions of a submission is an
-- argument, `meanwhile`.
--
-- Times are numbers, and an operation reads the clock once. New ids are arguments. Numbers are
-- unbounded. Fuel: `release_loop` takes one more than the length of the worker's list, of which each
-- round takes one value. `walk` takes one more than the number of faces that it may see (with the walls
-- that it starts from), since a face is pushed once. `find` takes the number of unions, since a union makes no
-- path longer by more than one. The counters of `floor_loop` and `step_loop` are the limits of the source.
--
-- The recognizer reads floating-point numbers through `Floats`, without a law. A KeyError or another
-- exception is `none`. Python sets have no order: where the source goes through a set, the model takes
-- the order of a list. The generator of the splits is a parameter, without a law.
--
-- Not modelled: the extraction of geometry by OCCT, ratios of counts, training, logs and metrics, the
-- polling loop of the worker with its threads and signals, the texts and statistics that a dataset
-- saves, the check of storage keys, so that no StorageKeyError is raised, and the handlers of
-- apps/api/main.py for samples, new datasets and training runs. The stages
-- and the end of a run of the pipeline are an argument of the worker.
mod Prelude
pub mod Errors
pub mod Jobs
pub mod Worker
pub mod Storage
pub mod Pipeline
pub mod Parsers
pub mod Evaluation
pub mod Ingestion
pub mod Api
pub mod Semantics
pub mod Datasets
pub mod Examples
