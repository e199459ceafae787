-- ===== src/Models.antt =====
-- crates/backup-service/src/models.rs: the rows, requests and responses of the API. A UUID is the
-- number of its 128 bits and a timestamp a number of ticks; an `f64` is a value of a type `F` that
-- the program only passes on here.
use backup_service.Common.{ℕ, String, Bool, Option, none, List, unwrap_or}
use backup_service.Common.Int.{ℤ, pos}

abbrev pub Uuid : Type 0
Uuid = ℕ

abbrev pub Timestamp : Type 0
Timestamp = ℕ

pub data BackupStatus : Type 0 where
  pending running completed failed : BackupStatus

-- `Display`
unfoldable pub fmt : BackupStatus → String
fmt pending = "pending"
fmt running = "running"
fmt completed = "completed"
fmt failed = "failed"

pub record Backup : Type 0 where
  pub id : Uuid
  pub tenant_id : Uuid
  pub source_path : String
  pub size_bytes : ℤ
  pub status : String
  pub encryption_enabled : Bool
  pub created_at : Timestamp
  pub updated_at : Timestamp

pub record CreateBackupRequest : Type 0 where
  pub source_path : String
  pub encryption_enabled : Bool

pub record UpdateBackupRequest : Type 0 where
  pub status : Option BackupStatus
  pub size_bytes : Option ℤ

pub record BackupResponse (F : Type 0) : Type 0 where
  pub id : Uuid
  pub tenant_id : Uuid
  pub source_path : String
  pub size_bytes : ℤ
  pub status : String
  pub encryption_enabled : Bool
  pub created_at : Timestamp
  pub updated_at : Timestamp
  pub entropy : Option F

-- `BackupResponse::from`
unfoldable pub from_backup : {F : Type 0} → Backup → BackupResponse F
from_backup b = record {
  id = b.id;
  tenant_id = b.tenant_id;
  source_path = b.source_path;
  size_bytes = b.size_bytes;
  status = b.status;
  encryption_enabled = b.encryption_enabled;
  created_at = b.created_at;
  updated_at = b.updated_at;
  entropy = none;
}

pub record ListParams : Type 0 where
  pub offset : ℤ
  pub limit : ℤ
  pub status : Option String

abbrev pub default_limit : ℤ
default_limit = pos 20

-- The parameters of a query string in which each may be left out: the serde defaults.
unfoldable pub list_params : Option ℤ → Option ℤ → Option String → ListParams
list_params offset limit status = record {
  offset = unwrap_or offset (pos 0);
  limit = unwrap_or limit default_limit;
  status = status;
}

pub record ListResponse (A : Type 0) : Type 0 where
  pub items : List A
  pub total : ℤ
  pub offset : ℤ
  pub limit : ℤ

pub record Claims : Type 0 where
  pub sub : String
  pub tenant_id : Uuid
  pub roles : List String
  pub exp : ℕ
  pub iat : ℕ
