-- ===== src/SourcePath.antt =====
-- crates/backup-service/src/handlers/backups.rs: `validate_source_path`.
pub mod Accepted
use backup_service.Common.{String, not, Result, ok, err, if◌then◌else◌}
use backup_service.Common.Text.{is_empty, starts_with, contains}
use backup_service.Errors.{AppError, validation}

unfoldable pub validate_source_path : String → Result (Unit {0}) AppError
validate_source_path path =
    if is_empty path
    then err (validation "source_path cannot be empty")
    else if not (starts_with "/" path)
    then err (validation "source_path must be absolute")
    else if contains ".." path
    then err (validation "path traversal not allowed")
    else ok tt
