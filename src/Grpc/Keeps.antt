-- ===== src/Grpc/Keeps.antt =====
-- grpc.rs: what the calls of the worker keep of the table.
use backup_service.Common.{modify}
use backup_service.Common.Outcome.Keeps.{Keeps, keeps_rules}
use backup_service.Models.{Uuid}
use backup_service.Proto.{StatusUpdate, ProcessingResult}
use backup_service.Services.{Services}
use backup_service.Sql.{Table, set_status, set_completed, set_failed}
use backup_service.Sql.Integrity.{Preserves}
use backup_service.State.Access.{OnTable, Keeps-query}
use backup_service.Grpc.{
  count_success, count_failure, parse_id, record_completed, record_failed, update_status,
  report_result,
}

module _ (s : Services) (P : Table → Type 0) where
  Keeps-count_success : Keeps (OnTable P) (count_success s)
  unfolding modify
  Keeps-count_success = record { at = λ w h. h }

  Keeps-count_failure : Keeps (OnTable P) (count_failure s)
  unfolding modify
  Keeps-count_failure = record { at = λ w h. h }

  ruleset call_rules = (keeps_rules, Keeps-query, Keeps-count_success, Keeps-count_failure)

  pub update_status-Keeps :
      (msg : StatusUpdate)
      → ((id : Uuid) → Preserves P (set_status s.postgres id msg.status))
      → Keeps (OnTable P) (update_status s msg)
  unfolding update_status parse_id
  update_status-Keeps msg k = search call_rules depth 12

  Keeps-record_completed :
      (id : Uuid) (result : ProcessingResult s.floats.F64)
      → Preserves P (set_completed s.postgres id result.size_bytes)
      → Keeps (OnTable P) (record_completed s id result)
  unfolding record_completed
  Keeps-record_completed id result k = search call_rules depth 12

  Keeps-record_failed :
      (id : Uuid) → Preserves P (set_failed s.postgres id) → Keeps (OnTable P) (record_failed s id)
  unfolding record_failed
  Keeps-record_failed id k = search call_rules depth 12

  pub report_result-Keeps :
      (result : ProcessingResult s.floats.F64)
      → ((id : Uuid) → Preserves P (set_completed s.postgres id result.size_bytes))
      → ((id : Uuid) → Preserves P (set_failed s.postgres id))
      → Keeps (OnTable P) (report_result s result)
  unfolding report_result parse_id
  report_result-Keeps result k k' =
      search (call_rules, Keeps-record_completed, Keeps-record_failed) depth 12
