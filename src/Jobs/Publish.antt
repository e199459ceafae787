-- ===== src/Jobs/Publish.antt =====
-- crates/backup-common/src/worker.rs: publishing a job.
use backup_service.Common.{String, Exec}
use backup_service.Services.{Rabbit, Json}
use backup_service.Jobs.{BackupJob, exchange_name, routing_key}

-- The message is persistent: delivery mode 2.
unfoldable pub publish_job : (r : Rabbit) → Json → BackupJob → Exec r.Server String (Unit {0})
publish_job r j job =
    r.basic_publish exchange_name routing_key (j.job_to_vec job) "application/json" 2
