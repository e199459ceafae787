-- ===== src/Backups/Deleted.antt =====
-- handlers/backups.rs: a deleted backup is not read again.
use backup_service.Common.{
  ◌≡◌, refl, ap, ◌∙◌, Bool, false, not, none, some, ok, err, [], ◌∷◌, arith, ◌>>=◌, select, find,
  length, Bool-cases, inl, inr, ◌==◌, suc_==_zero,
}
use backup_service.Models.{Uuid, Backup, Claims}
use backup_service.Errors.{database}
use backup_service.Errors.StatusCode
use backup_service.Services.{Services, up}
use backup_service.Services.Laws.{IsRedis}
use backup_service.Sql
use backup_service.Sql.{Table, is_row_of, select_backup}
use backup_service.Cache
use backup_service.Cache.Invalidation.{
  IsInvalidated, after_invalidations, get_backup-after_invalidations,
}
use backup_service.State.{AppState, cached}
use backup_service.State.Access.{query-up, after_statement}
use backup_service.Backups
use backup_service.Backups.{backup_not_found, ok_or, or_else, select_or_not_found, get_from_db}

-- A deletion by a condition leaves nothing that meets it.
find-select : (p : Backup → Bool) (t : Table) → find p (select (λ r. not (p r)) t) ≡ none
find-select p [] = refl
find-select p (r ∷ t) = elim (Bool-cases (p r)) [
  | inl hit ↦ rw hit (find-select p t)
  | inr miss ↦ rw (miss, miss) (find-select p t)
]

select-found :
    (p : Backup → Bool) (t : Table) (b : Backup)
    → find p t ≡ some b
    → (length (select p t) == 0) ≡ false
select-found p [] b h = absurd (ground (arith, h))
select-found p (r ∷ t) b h = elim (Bool-cases (p r)) [
  | inl hit ↦ rw hit (suc_==_zero (length (select p t)))
  | inr miss ↦ rw miss (select-found p t b (rw miss at h))
]

-- A reader who finds nothing, neither in the cache nor in the table.
module _ (s : Services) (claims : Claims) (id : Uuid) (w : AppState s)
    (arrives : (s.postgres.attempt w.db.server).link ≡ up)
    (absent : find (is_row_of id claims.tenant_id) w.db.table ≡ none) where
  get_from_db_absent : (get_from_db s id claims.tenant_id w).0 ≡ err (backup_not_found s id)
  unfolding get_from_db select_or_not_found ok_or ◌>>=◌
  get_from_db_absent =
      let one =
        query-up s database (select_backup s.postgres id claims.tenant_id) w none w.db.table arrives
          (unfold select_backup in rw absent) in
      rw one

module _ (s : Services) (claims : Claims) (id : Uuid) (w : AppState s)
    (arrives : (s.postgres.attempt w.db.server).link ≡ up)
    (absent : find (is_row_of id claims.tenant_id) w.db.table ≡ none)
    (miss : (Cache.get_backup s.redis s.json s.uuids w.cache id w.redis).0 ≡ none) where
  get_backup_absent : (Backups.get_backup s claims id w).0 ≡ err (backup_not_found s id)
  unfolding Backups.get_backup cached or_else ◌>>=◌
  get_backup_absent =
      let server = (Cache.get_backup s.redis s.json s.uuids w.cache id w.redis).1 in
      rw miss (get_from_db_absent s claims id (record w { redis = server }) arrives absent)

module _ (s : Services) (claims : Claims) (id : Uuid) (w : AppState s) (b : Backup)
    (arrives : (s.postgres.attempt w.db.server).link ≡ up)
    (found : find (is_row_of id claims.tenant_id) w.db.table ≡ some b) where
  abbrev rest : Table
  rest = select (λ r. not (is_row_of id claims.tenant_id r)) w.db.table

  abbrev after_delete : AppState s
  after_delete = record (after_statement s rest w) {
    redis = after_invalidations s.redis s.json s.uuids w.cache id claims.tenant_id w.redis;
  }

  pub delete_backup_lem :
      Backups.delete_backup s claims id w ≡ (ok StatusCode.no_content, after_delete)
  unfolding Backups.delete_backup cached ◌>>=◌
  delete_backup_lem =
      let one =
        query-up s database (Sql.delete_backup s.postgres id claims.tenant_id) w
          (length (select (is_row_of id claims.tenant_id) w.db.table)) rest arrives
          (unfold Sql.delete_backup in refl) in
      rw (one, select-found (is_row_of id claims.tenant_id) w.db.table b found)

  -- If the first two statements run and their replies arrive, the tenant has a backup of the id,
  -- and Redis, where there is a connection, answers the deletion of its key, then a deletion
  -- answers 204, and the tenant's read of the id after it fails with "not found".
  pub get_backup-delete_backup :
      (redis : IsRedis s.redis)
      → IsInvalidated s.redis s.json s.uuids w.cache id w.redis
      → (s.postgres.attempt (s.postgres.next w.db.server)).link ≡ up
      → ((Backups.delete_backup s claims id w).0 ≡ ok StatusCode.no_content)
        × ((Backups.get_backup s claims id (Backups.delete_backup s claims id w).1).0
            ≡ err (backup_not_found s id))
  get_backup-delete_backup redis dropped arrives_again =
      let gone = find-select (is_row_of id claims.tenant_id) w.db.table in
      let miss =
        get_backup-after_invalidations s.redis s.json s.uuids redis w.cache id claims.tenant_id
          w.redis dropped in
      (
        ap (λ r. r.0) delete_backup_lem,
        ap (λ r. (Backups.get_backup s claims id r.1).0) delete_backup_lem
            ∙ get_backup_absent s claims id after_delete arrives_again gone miss,
      )
