-- ===== src/Jobs.antt =====
-- cad2ml/jobs: the job state machine, its durable record, the transport queue and the service.
pub mod States
pub mod Engine
pub mod Db
pub mod Queue
pub mod Exec
pub mod Service
