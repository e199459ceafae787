-- ===== src/Backups/Race.antt =====
-- handlers/backups.rs: a read whose two steps are apart, with another request in between.
use mathlib.Core.Bool.{and-eq-true_iff}
use backup_service.Common.{
  sym, String, ==_iff, ◌≡◌, refl, ap, ◌∙◌, true, some, Result, ok, ◌>>=◌, ◌>>◌, find, All, pure,
}
use backup_service.Models.{Uuid, Backup, from_backup, UpdateBackupRequest, Claims}
use backup_service.Errors.{AppError, database}
use backup_service.Services.{Services, up}
use backup_service.Services.Laws.{IsRedis, IsJson}
use backup_service.Sql.{is_row_of, select_backup}
use backup_service.Sql.Integrity.{HasAllowedStatus}
use backup_service.Sql.Lookup.{find-map_where_by, find-holds}
use backup_service.Cache.{backup_key}
use backup_service.Cache.Invalidation.{IsInvalidated, stored-after_invalidations}
use backup_service.Cache.Stored.{get_backup-set_backup}
use backup_service.State.{AppState, cached}
use backup_service.State.Access.{query-up, after_statement}
use backup_service.Backups
use backup_service.Backups.{
  Handler, Response, owned, ok_or, or_else, select_or_not_found, cache_set,
}
use backup_service.Backups.Freshness.{
  get_backup-hit, change, after_update, updated_row, update_backup_lem,
}

-- `get_from_db` with what another request does between its statement and its write to the cache.
unfoldable pub interrupted :
    (s : Services) → (AppState s → AppState s) → Uuid → Uuid → Handler s (Response s)
interrupted s other id tenant = do
  backup ← select_or_not_found s id tenant
  (λ w. (ok tt, other w))
  cache_set s backup
  pure (from_backup backup)

module _ (s : Services) (claims : Claims) (req : UpdateBackupRequest) (w : AppState s) (b : Backup)
    (arrives : (s.postgres.attempt w.db.server).link ≡ up)
    (arrives_again : (s.postgres.attempt (s.postgres.next w.db.server)).link ≡ up)
    (statuses : All HasAllowedStatus w.db.table)
    (found : find (is_row_of b.id claims.tenant_id) w.db.table ≡ some b) where
  -- The state of the update.
  abbrev pub read_state : AppState s
  read_state = after_statement s w.db.table w

  abbrev pub written_state : AppState s
  written_state = after_update s claims b.id req read_state b arrives_again statuses found

  -- The read, with the update in between.
  abbrev pub raced : Result (Response s) AppError × AppState s
  raced = interrupted s (λ v. (Backups.update_backup s claims b.id req v).1) b.id claims.tenant_id w

  abbrev pub cached_state : AppState s
  cached_state = (cache_set s b written_state).1

  select_lem : select_or_not_found s b.id claims.tenant_id w ≡ (ok b, read_state)
  unfolding select_or_not_found ok_or ◌>>=◌
  select_lem =
      let one =
        query-up s database (select_backup s.postgres b.id claims.tenant_id) w (some b) w.db.table
          arrives (unfold select_backup in rw found) in
      rw one

  pub raced_lem : raced ≡ (ok (from_backup b), cached_state)
  unfolding interrupted cached ◌>>=◌
  raced_lem =
      rw (select_lem, update_backup_lem s claims b.id req read_state b arrives_again statuses found)

  own : b.tenant_id ≡ claims.tenant_id
  own =
      let holds = find-holds (is_row_of b.id claims.tenant_id) w.db.table b found in
      (==_iff _ _).0 ((and-eq-true_iff _ _).0 holds).1

  -- A read that misses the cache, with an update of the same backup by the tenant between its
  -- statement and its write to the cache, leaves the cache stale: if both statements run and
  -- their replies arrive, the statuses in the table are of the four, the tenant has the backup,
  -- the cache is connected, Redis answers the deletion of its key and answers a later read of the
  -- key with a text, and what was written as JSON reads back, then the tenant's next read answers
  -- the backup as it was before the update, though the table has it as updated.
  pub get_backup-raced :
      (redis : IsRedis s.redis) (json : IsJson s.json) (text : String)
      → IsInvalidated s.redis s.json s.uuids w.cache b.id w.redis
      → w.cache.redis ≡ true
      → (s.redis.get (backup_key s.redis s.json s.uuids b.id) raced.1.redis).0 ≡ ok text
      → ((Backups.get_backup s claims b.id raced.1).0 ≡ ok (from_backup b))
        × (find (is_row_of b.id claims.tenant_id) raced.1.db.table
            ≡ some (updated_row s claims b.id req read_state b arrives_again statuses found))
  unfolding cached
  get_backup-raced redis json text dropped connected answers =
      let absent =
        stored-after_invalidations s.redis s.json s.uuids redis w.cache b.id claims.tenant_id
          w.redis dropped connected in
      let answers_ =
        ap (λ r. (s.redis.get (backup_key s.redis s.json s.uuids b.id) r.1.redis).0) (sym raced_lem)
        ∙ answers in
      let hit =
        get_backup-set_backup s.redis s.json s.uuids redis json w.cache w.config b text
          written_state.redis connected absent answers_ in
      let row =
        find-map_where_by (is_row_of b.id claims.tenant_id)
          (change s claims b.id req (s.postgres.attempt (s.postgres.next w.db.server))) (λ r. refl)
          w.db.table b found in
      (
        ap (λ r. (Backups.get_backup s claims b.id r.1).0) raced_lem
            ∙ get_backup-hit s b.id b claims cached_state own hit,
        ap (λ r. find (is_row_of b.id claims.tenant_id) r.1.db.table) raced_lem ∙ row,
      )
