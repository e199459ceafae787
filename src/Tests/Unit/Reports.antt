-- ===== src/Tests/Unit/Reports.antt =====
-- The tests of crates/backup-service/src/grpc.rs and of crates/backup-common/src/worker.rs.
use text.Mathlib.Text.{◌==◌ as str_eq}
use backup_service.Common.{
  ℕ, ◌≡◌, refl, Bool, true, false, not, ◌&&◌, Result, ok, err, ◌==◌, String, if◌then◌else◌,
}
use backup_service.Common.Int.{pos, eqb_ℤ}
use backup_service.Common.Text.{is_empty}
use backup_service.Jobs.{BackupJob}
use backup_service.Proto.{StatusUpdate, ProcessingResult}
use backup_service.Services.{Json}
use backup_service.Tests.Fixtures.{json, job}

abbrev status_update_construction : Bool
status_update_construction =
    let update : StatusUpdate = record {
      backup_id = "550e8400-e29b-41d4-a716-446655440000";
      status = "running";
    } in
    str_eq update.status "running" && not (is_empty update.backup_id)

-- A result of the tests, with its entropy.
abbrev result_of : {F : Type 0} → F → String → ℕ → String → ProcessingResult F
result_of entropy status size error_message = record {
  backup_id = "550e8400-e29b-41d4-a716-446655440000";
  status = status;
  size_bytes = pos size;
  entropy = entropy;
  suspicious = false;
  error_message = error_message;
}

abbrev processing_result_construction : {F : Type 0} → F → Bool
processing_result_construction entropy =
    let result = result_of entropy "completed" 1_048_576 "" in
    str_eq result.status "completed"
    && eqb_ℤ result.size_bytes (pos 1_048_576)
    && not result.suspicious

abbrev failed_result_carries_error_message : {F : Type 0} → F → Bool
failed_result_carries_error_message entropy =
    let result = result_of entropy "failed" 0 "disk full" in
    str_eq result.status "failed" && str_eq result.error_message "disk full"

abbrev same_job : BackupJob → Result BackupJob String → Bool
same_job sent (err e) = false
same_job sent (ok read) =
    (sent.backup_id == read.backup_id)
    && (sent.tenant_id == read.tenant_id)
    && str_eq sent.source_path read.source_path
    && (if sent.encryption_enabled then read.encryption_enabled else not read.encryption_enabled)

abbrev backup_job_serialization_roundtrip : Json → BackupJob → Bool
backup_job_serialization_roundtrip j sent = same_job sent (j.job_from_slice (j.job_to_vec sent))

reports-passes :
    status_update_construction
      && processing_result_construction {F = ℕ} 4
      && failed_result_carries_error_message {F = ℕ} 0
      && backup_job_serialization_roundtrip json job
    ≡ true
reports-passes = refl
