-- ===== src/Tests/Unit/Paths.antt =====
-- The tests of crates/backup-service/src/handlers/backups.rs.
use backup_service.Common.{◌≡◌, refl, Bool, true, not, ◌&&◌, is_ok}
use backup_service.SourcePath.{validate_source_path}

abbrev valid_paths_accepted : Bool
valid_paths_accepted =
    is_ok (validate_source_path "/home/user/data")
    && is_ok (validate_source_path "/var/backups/daily")

abbrev empty_path_rejected : Bool
empty_path_rejected = not (is_ok (validate_source_path ""))

abbrev relative_path_rejected : Bool
relative_path_rejected = not (is_ok (validate_source_path "relative/path"))

abbrev traversal_rejected : Bool
traversal_rejected = not (is_ok (validate_source_path "/home/../etc/passwd"))

paths-passes :
    valid_paths_accepted && empty_path_rejected && relative_path_rejected && traversal_rejected
    ≡ true
unfolding validate_source_path
paths-passes = refl
