-- ===== src/Jobs.antt =====
-- crates/backup-common/src/worker.rs: the job message and its names.
pub mod Durable
pub mod Publish
pub mod Topology
use backup_service.Common.{String, Bool}
use backup_service.Models.{Uuid}

pub record BackupJob : Type 0 where
  pub backup_id : Uuid
  pub tenant_id : Uuid
  pub source_path : String
  pub encryption_enabled : Bool

abbrev pub exchange_name : String
exchange_name = "backup_events"

abbrev pub queue_name : String
queue_name = "backup_jobs"

abbrev pub routing_key : String
routing_key = "backup.process"
