-- ===== src/Proto.antt =====
-- proto/backup.proto, as the generated types: the messages and the error of a call.
use backup_service.Common.{String, Bool}
use backup_service.Common.Int.{ℤ}

pub record StatusUpdate : Type 0 where
  pub backup_id : String
  pub status : String

pub record ProcessingResult (F : Type 0) : Type 0 where
  pub backup_id : String
  pub status : String
  pub size_bytes : ℤ
  pub entropy : F
  pub suspicious : Bool
  pub error_message : String

pub record Ack : Type 0 where
  pub success : Bool
  pub message : String

-- `tonic::Status`, at the codes that the program uses.
pub data Status : Type 0 where
  invalid_argument : String → Status
  not_found : String → Status
  internal : String → Status
