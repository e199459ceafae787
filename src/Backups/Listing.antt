-- ===== src/Backups/Listing.antt =====
-- handlers/backups.rs: what a tenant lists after it has created a backup.
use backup_service.Common.{
  ◌≡◌, refl, ap, ◌∙◌, true, false, none, ok, List, [], ◌∷◌, ◌++◌, ◌>>=◌, select, find, length, take,
  drop, select-append, ==_refl, Bool-cases, inl, inr,
}
use backup_service.Common.Int.{ℤ, pos, pos_part}
use backup_service.Models.{Backup, from_backup, CreateBackupRequest, ListParams, Claims}
use backup_service.Errors.{database}
use backup_service.Errors.StatusCode
use backup_service.Services.{Services, up}
use backup_service.Services.Laws.{IsRedis}
use backup_service.SourcePath.{validate_source_path}
use backup_service.Sql
use backup_service.Sql.{Table, has_id, new_row, matches}
use backup_service.Cache
use backup_service.Cache.Invalidation.{
  IsListInvalidated, get_tenant_backups-invalidate_tenant_backups,
}
use backup_service.State.{AppState, cached}
use backup_service.State.Access.{query-up, after_statement}
use backup_service.Backups
use backup_service.Backups.{
  page_limit, page_offset, uses_list_cache, list_get, list_response, or_else, map_option,
}
use backup_service.Backups.Refinement.{insert_answer}
use backup_service.Backups.Pages.{matching, page_rows, list_from_db_lem}

-- A page without a condition on the status.
abbrev pub page : ℤ → ℤ → ListParams
page offset limit = record { offset = offset; limit = limit; status = none }

module _ (s : Services) (claims : Claims) where
  -- Where the cache has no list of the tenant, the listing is taken from the table.
  module _ (params : ListParams) (w : AppState s)
      (arrives : (s.postgres.attempt w.db.server).link ≡ up)
      (arrives_again : (s.postgres.attempt (s.postgres.next w.db.server)).link ≡ up)
      (miss : (Cache.get_tenant_backups s.redis s.json s.uuids w.cache claims.tenant_id w.redis).0
        ≡ none) where
    pub list_backups-miss :
        (Backups.list_backups s claims params w).0
        ≡ ok (
            list_response s params (
              page_rows s claims params w arrives arrives_again,
              pos (length (matching s claims params w arrives arrives_again)),
            ))
    unfolding Backups.list_backups or_else ◌>>=◌ cached
    list_backups-miss = elim (Bool-cases (uses_list_cache s params w.config)) [
      | inl caches ↦
          let server =
            (Cache.get_tenant_backups s.redis s.json s.uuids w.cache claims.tenant_id w.redis).1 in
          rw (caches, miss)
            (list_from_db_lem s claims params (record w { redis = server }) arrives arrives_again
              true)
      | inr direct ↦ rw direct (list_from_db_lem s claims params w arrives arrives_again false)
    ]

  module _ (req : CreateBackupRequest) (w : AppState s)
      (arrives : (s.postgres.attempt w.db.server).link ≡ up)
      (valid : validate_source_path req.source_path ≡ ok tt)
      (fresh : find (has_id (s.postgres.attempt w.db.server).uuid) w.db.table ≡ none) where
    abbrev pub created_row : Backup
    created_row =
        new_row claims.tenant_id req.source_path req.encryption_enabled
          (s.postgres.attempt w.db.server)

    abbrev pub after_create : AppState s
    after_create = record (after_statement s (w.db.table ++ created_row ∷ []) w) {
      redis =
          (Cache.invalidate_tenant_backups s.redis s.json s.uuids w.cache claims.tenant_id
            w.redis).1;
    }

    pub create_backup_lem :
        Backups.create_backup s claims req w
        ≡ (ok (StatusCode.created, from_backup created_row), after_create)
    unfolding Backups.create_backup cached ◌>>=◌
    create_backup_lem =
        let one =
          query-up s database
            (Sql.insert_backup s.postgres claims.tenant_id req.source_path req.encryption_enabled) w
            created_row (w.db.table ++ created_row ∷ []) arrives
            (insert_answer s.postgres claims.tenant_id req.source_path req.encryption_enabled
              (s.postgres.attempt w.db.server) w.db.table fresh) in
        rw (valid, one) refl

    -- The tenant's backups, with the new one as the last.
    abbrev pub own_rows : List Backup
    own_rows = select (matches claims.tenant_id none) w.db.table ++ created_row ∷ []

    select-created :
        select (matches claims.tenant_id none) (w.db.table ++ created_row ∷ []) ≡ own_rows
    select-created =
        select-append (matches claims.tenant_id none) w.db.table (created_row ∷ [])
        ∙ rw (==_refl claims.tenant_id) refl

    -- If the first three statements run and their replies arrive, the path is accepted, the new
    -- id is fresh, and Redis, where there is a connection, answers the deletion of the key of
    -- the tenant's list, then a creation answers 201 with its row, and the tenant's listing
    -- after it, of any page and with no condition on the status, is taken from its rows with
    -- the new one among them, cache or no cache, and counts the new one.
    pub list_backups-create_backup :
        (redis : IsRedis s.redis) (offset limit : ℤ)
        → IsListInvalidated s.redis s.json s.uuids redis w.cache claims.tenant_id w.redis
        → (s.postgres.attempt (s.postgres.next w.db.server)).link ≡ up
        → (s.postgres.attempt (s.postgres.next (s.postgres.next w.db.server))).link ≡ up
        → ((Backups.create_backup s claims req w).0
            ≡ ok (StatusCode.created, from_backup created_row))
          × ((Backups.list_backups s claims
                (page offset limit)
                (Backups.create_backup s claims req w).1).0
              ≡ ok (
                  list_response s (page offset limit) (
                    take (pos_part (page_limit s (page offset limit))) (
                        drop
                          (pos_part (page_offset s (page offset limit)))
                          (s.postgres.order_by_created_at_desc own_rows)),
                    pos (length own_rows),
                  )))
    list_backups-create_backup redis offset limit dropped arrives_1 arrives_2 =
        let params = page offset limit in
        let miss =
          get_tenant_backups-invalidate_tenant_backups s.redis s.json s.uuids redis w.cache
            claims.tenant_id w.redis dropped in
        (
          ap (λ r. r.0) create_backup_lem,
          ap (λ r. (Backups.list_backups s claims params r.1).0) create_backup_lem
              ∙ list_backups-miss params after_create arrives_1 arrives_2 miss
              ∙ ap
                  (λ (rows : List Backup). ok (
                    list_response s params (
                      take (pos_part (page_limit s params)) (
                          drop (pos_part (page_offset s params))
                            (s.postgres.order_by_created_at_desc rows)),
                      pos (length rows),
                    )))
                  select-created,
        )
