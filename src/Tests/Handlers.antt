-- ===== src/Tests/Handlers.antt =====
-- The theorems on the handlers and their cache, on concrete runs.
use backup_service.Common.{List, map, [], ◌∷◌, arith, ℕ, ◌≡◌, refl, ok, err, some, false, none}
use backup_service.Common.Int.{pos}
use backup_service.Models.{fmt, Claims, UpdateBackupRequest, completed, from_backup, ListParams}
use backup_service.Errors.StatusCode
use backup_service.Proto.{ProcessingResult}
use backup_service.Cache
use backup_service.Cache.Invalidation.{IsInvalidated}
use backup_service.State.{AppState}
use backup_service.Backups
use backup_service.Backups.{list_backups, uses_list_cache, backup_not_found}
use backup_service.Backups.Deleted.{get_backup-delete_backup}
use backup_service.Backups.Refinement.{Change, updated, deleted, apply}
use backup_service.Backups.History.{run, store, own_changes, AllFit, rows_of-run}
use backup_service.Sql.{map_where}
use backup_service.Sql.Tenancy.{rows_of}
use backup_service.System.{update_config}
use backup_service.System.StalePage.{first_page, limit_update, list_backups-update_config}
use backup_service.Grpc.{report_result}
use backup_service.Grpc.Stale.{Hits, get_backup-report_result}
use backup_service.Tests.Codec.{write_only_self, Backup_discrete, Page_discrete}
use backup_service.Tests.Fixtures.{
  unary, services, world, row, claims, redis_laws, json, redis, uuids,
}

abbrev req : UpdateBackupRequest
req = record { status = some completed; size_bytes = some (pos 9) }

world-IsInvalidated : IsInvalidated redis json uuids world.cache 7 world.redis
world-IsInvalidated connected = refl

get_backup-delete_backup_example :
    ((Backups.delete_backup services claims 7 world).0 ≡ ok StatusCode.no_content)
    × ((Backups.get_backup services claims 7 (Backups.delete_backup services claims 7 world).1).0
        ≡ err (backup_not_found services 7))
get_backup-delete_backup_example =
    get_backup-delete_backup services claims 7 world row refl refl redis_laws world-IsInvalidated
      refl

-- The second page, which is never cached.
abbrev second : ListParams
second = record { offset = pos 1; limit = pos 500; status = none }

-- The cache holds the row as it was before the worker's report.
abbrev warm : AppState services
warm = record world {
  redis = (Cache.set_backup redis json uuids world.cache world.config row world.redis).1;
}

abbrev done : ProcessingResult ℕ
done = record {
  backup_id = "1111111";
  status = "completed";
  size_bytes = pos 5;
  entropy = 0;
  suspicious = false;
  error_message = "";
}

warm-Hits : Hits services 7 row warm
unfolding Cache.get_backup Cache.set_backup Cache.backup_key Cache.cache_ttl_secs unary
warm-Hits = rw (write_only_self Backup_discrete row "row")

get_backup-report_result_example :
    (Backups.get_backup services claims 7 (report_result services done warm).1).0
    ≡ ok (from_backup row)
get_backup-report_result_example =
    get_backup-report_result services 7 row done claims warm refl warm-Hits

-- Tenant 1 updates its backup, and another tries to delete it, and deletes its own.
abbrev stranger : Claims
stranger = record claims { tenant_id = 2 }

abbrev history : List (Claims × Change)
history = (claims, updated 7 req) ∷ (stranger, deleted 7) ∷ (stranger, deleted 8) ∷ []

history-AllFit : AllFit services 1 history world
unfolding AllFit
history-AllFit = (
  (λ own. (refl, (refl, (refl, tt)))),
  ((λ e. absurd (ground (arith, e))), ((λ e. absurd (ground (arith, e))), tt)),
)

rows_of-run_example :
    rows_of 1 (run services history world).db.table
    ≡ record row { status = "completed"; size_bytes = pos 9; updated_at = 0 } ∷ []
unfolding store own_changes apply map_where fmt
rows_of-run_example = rows_of-run services 1 history world history-AllFit

-- The cache holds a page of one row, and the limit becomes 5.
abbrev listed : AppState services
listed = record world {
  redis =
      (Cache.set_tenant_backups redis json uuids world.cache world.config 1 (row ∷ []) (pos 1)
        world.redis).1;
}

listed-hit :
    (Cache.get_tenant_backups redis json uuids listed.cache 1 listed.redis).0
    ≡ some (row ∷ [], pos 1)
unfolding Cache.get_tenant_backups Cache.set_tenant_backups Cache.tenant_key Cache.cache_ttl_secs
    unary
listed-hit = rw (write_only_self Page_discrete (row ∷ [], pos 1) "page")

list_backups-update_config_example :
    (list_backups services claims
      (first_page 5)
      (update_config services (ok (limit_update 5)) listed)).0
    ≡ ok (record {
      items = map from_backup (row ∷ []);
      total = pos 1;
      offset = pos 0;
      limit = pos 5;
    })
list_backups-update_config_example =
    list_backups-update_config services claims 5 listed (row ∷ []) (pos 1) (omega arith)
      (omega arith) refl listed-hit
