-- ===== src/Grpc/Stale.antt =====
-- grpc.rs beside cache.rs: what a reader finds after a call of the worker.
use backup_service.Common.{◌≡◌, String, some, ok, modify}
use backup_service.Common.Outcome.Keeps.{Keeps, keeps_rules}
use backup_service.Models.{Uuid, Backup, from_backup, Claims}
use backup_service.Proto.{ProcessingResult}
use backup_service.Services.{Services}
use backup_service.Sql.{Statement}
use backup_service.Cache
use backup_service.State.{AppState, query}
use backup_service.Backups
use backup_service.Backups.Freshness.{get_backup-hit}
use backup_service.Grpc.{
  parse_id, report_result, record_completed, record_failed, count_success, count_failure,
}

module _ (s : Services) (id : Uuid) (b : Backup) where
  -- The cache holds this backup.
  abbrev pub Hits : AppState s → Type 0
  Hits w = (Cache.get_backup s.redis s.json s.uuids w.cache id w.redis).0 ≡ some b

  Hits-query : {E A : Type 0} (f : String → E) (st : Statement A) → Keeps Hits (query s f st)
  unfolding query
  Hits-query f st = record { at = λ w h. h }

  Hits-count_success : Keeps Hits (count_success s)
  unfolding modify
  Hits-count_success = record { at = λ w h. h }

  Hits-count_failure : Keeps Hits (count_failure s)
  unfolding modify
  Hits-count_failure = record { at = λ w h. h }

  ruleset hits_rules = (keeps_rules, Hits-query, Hits-count_success, Hits-count_failure)

  report_result-Hits :
      (result : ProcessingResult s.floats.F64) → Keeps Hits (report_result s result)
  unfolding report_result parse_id record_completed record_failed
  report_result-Hits result = search hits_rules depth 12

  -- If the cache answers a read of an id with a backup of the tenant, the tenant's read after any
  -- report of the worker, however its statements fare, answers that backup as the cache had it: a
  -- report invalidates nothing.
  pub get_backup-report_result :
      (result : ProcessingResult s.floats.F64) (claims : Claims) (w : AppState s)
      → b.tenant_id ≡ claims.tenant_id
      → Hits w
      → (Backups.get_backup s claims id (report_result s result w).1).0 ≡ ok (from_backup b)
  get_backup-report_result result claims w own hit =
      get_backup-hit s id b claims (report_result s result w).1 own
        ((report_result-Hits result).at w hit)
