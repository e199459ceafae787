-- ===== src/Tests/Race.antt =====
-- A read and an update of one row, interleaved.
use backup_service.Common.{◌≡◌, refl, ap, ◌∙◌, ok, some, find}
use backup_service.Common.Int.{pos}
use backup_service.Models.{UpdateBackupRequest, completed, from_backup, fmt}
use backup_service.Sql.{is_row_of}
use backup_service.Cache
use backup_service.Cache.{backup_key}
use backup_service.Cache.Invalidation.{IsInvalidated}
use backup_service.State.{cached}
use backup_service.Backups
use backup_service.Backups.Race.{raced, raced_lem, cached_state, get_backup-raced}
use backup_service.Tests.Codec.{write_only_self, Backup_discrete}
use backup_service.Tests.Fixtures.{
  unary, services, world, row, claims, redis_laws, json_laws, json, redis, uuids,
}

abbrev req : UpdateBackupRequest
req = record { status = some completed; size_bytes = some (pos 9) }

world-IsInvalidated : IsInvalidated redis json uuids world.cache 7 world.redis
world-IsInvalidated connected = refl

stored :
    (redis.get
      (backup_key redis json uuids 7)
      (cached_state services claims req world row refl refl (refl, (refl, tt)) refl).redis).0
    ≡ ok "row"
unfolding cached Cache.set_backup Cache.backup_key Cache.cache_ttl_secs unary
stored = rw (write_only_self Backup_discrete row "row")

answered :
    (redis.get
      (backup_key redis json uuids 7)
      (raced services claims req world row refl refl (refl, (refl, tt)) refl).1.redis).0
    ≡ ok "row"
answered =
    ap (λ r. (redis.get (backup_key redis json uuids 7) r.1.redis).0)
      (raced_lem services claims req world row refl refl (refl, (refl, tt)) refl)
    ∙ stored

get_backup-raced_example :
    ((Backups.get_backup services claims 7
        (raced services claims req world row refl refl (refl, (refl, tt)) refl).1).0
      ≡ ok (from_backup row))
    × (find
          (is_row_of 7 1)
          (raced services claims req world row refl refl (refl, (refl, tt)) refl).1.db.table
        ≡ some (record row { status = "completed"; size_bytes = pos 9; updated_at = 1 }))
unfolding fmt
get_backup-raced_example =
    get_backup-raced services claims req world row refl refl (refl, (refl, tt)) refl redis_laws
      json_laws "row" world-IsInvalidated refl answered
