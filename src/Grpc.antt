-- ===== src/Grpc.antt =====
-- crates/backup-service/src/grpc.rs: the service that the worker reports to. It holds the pool alone,
-- so a call reaches no cache.
pub mod Confidential
pub mod Keeps
pub mod Reports
pub mod Stale
use Prim.Native.String
use text.Mathlib.Text.{◌==◌ as str_eq}
use backup_service.Common.{
  ℕ, ◌+◌, String, Bool, true, Result, map_err, Exec, pure, raise, lift, modify, ◌>>=◌, ◌>>◌, ◌==◌,
  length, if◌then◌else◌,
}
use backup_service.Models.{Uuid}
use backup_service.Proto
use backup_service.Proto.{StatusUpdate, ProcessingResult, Ack, Status}
use backup_service.Services.{Services}
use backup_service.Sql.{set_status, set_completed, set_failed}
use backup_service.State.{AppState, query}

module _ (s : Services) where
  abbrev pub Call : Type 0 → Type 0
  Call A = Exec (AppState s) Status A

  abbrev pub database_error : String → Status
  database_error e = Proto.internal (String.◌++◌ "database error: " e)

  unfoldable pub parse_id : String → Call Uuid
  parse_id id = lift (
      map_err (λ e. Proto.invalid_argument (String.◌++◌ "invalid backup_id: " e))
        (s.uuids.parse id))

  abbrev pub missing : Uuid → Status
  missing id =
      Proto.not_found (String.◌++◌ "backup " (String.◌++◌ (s.uuids.to_string id) " not found"))

  unfoldable pub update_status : StatusUpdate → Call Ack
  update_status msg = do
    backup_id ← parse_id msg.backup_id
    rows ← query s database_error (set_status s.postgres backup_id msg.status)
    if length rows == 0 then raise (missing backup_id) else pure tt
    pure (record { success = true; message = "status updated" })

  -- `metrics::counter!("backup_jobs_processed_total", …).increment(1)`
  abbrev count_success : Call (Unit {0})
  count_success = modify (λ w. (tt, record w { jobs_succeeded = w.jobs_succeeded + 1 }))

  abbrev count_failure : Call (Unit {0})
  count_failure = modify (λ w. (tt, record w { jobs_failed = w.jobs_failed + 1 }))

  unfoldable pub record_completed : Uuid → ProcessingResult s.floats.F64 → Call (Unit {0})
  record_completed backup_id result = do
    query s database_error (set_completed s.postgres backup_id result.size_bytes)
    count_success

  unfoldable pub record_failed : Uuid → Call (Unit {0})
  record_failed backup_id = do
    query s database_error (set_failed s.postgres backup_id)
    count_failure

  unfoldable pub report_result : ProcessingResult s.floats.F64 → Call Ack
  report_result result = do
    backup_id ← parse_id result.backup_id
    if str_eq result.status "completed"
        then record_completed backup_id result
        else record_failed backup_id
    pure (record { success = true; message = "result recorded" })
