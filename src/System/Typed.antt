-- ===== src/System/Typed.antt =====
-- models.rs over the whole service: the column of statuses, which is text in the table, has the type
-- `BackupStatus` of the code.
use text.Mathlib.Text.{◌==◌ as str_eq}
use backup_service.Common.{◌≡◌, String, List, map}
use backup_service.Models.{BackupStatus, fmt, Backup}
use backup_service.Services.{Services}
use backup_service.Sql.{Table}

-- A text is the rendering of a status.
abbrev pub IsStatus : String → Type 0
IsStatus text = (status : BackupStatus) × (fmt status ≡ text)

-- The texts of the column.
abbrev pub status_column : Table → List String
status_column = map (λ (r : Backup). r.status)

abbrev pub IsTyped : Table → Type 0
IsTyped t = (statuses : List BackupStatus) × (map fmt statuses ≡ status_column t)
