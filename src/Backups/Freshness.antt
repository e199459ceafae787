-- ===== src/Backups/Freshness.antt =====
-- handlers/backups.rs: what a tenant reads after its own write.
use backup_service.Common.{
  ◌≡◌, refl, ==_refl, Bool, true, Option, none, some, ok, [], ◌∷◌, map, ◌>>=◌, select, find, all,
  All, Bool-cases, inl, inr,
}
use backup_service.Common.Int.{ℤ}
use backup_service.Models.{
  Uuid, BackupStatus, pending, running, completed, failed, fmt, Backup, from_backup,
  UpdateBackupRequest, Claims,
}
use backup_service.Errors.{database}
use backup_service.Services.{Attempt, Services, up}
use backup_service.Sql
use backup_service.Sql.{Table, is_allowed, is_row_of, map_where, written, update_where}
use backup_service.Sql.Integrity.{HasAllowedStatus}
use backup_service.Sql.Lookup.{first-map}
use backup_service.Cache
use backup_service.Cache.Invalidation.{after_invalidations}
use backup_service.State.{AppState, cached}
use backup_service.State.Access.{query-up, after_statement}
use backup_service.Backups
use backup_service.Backups.{map_option, owned, ok_or, or_else, cache_drop, list_drop}

-- A hit on a backup of the reader's own is the answer.
pub get_backup-hit :
    (s : Services) (id : Uuid) (b : Backup) (claims : Claims) (w : AppState s)
    → b.tenant_id ≡ claims.tenant_id
    → (Cache.get_backup s.redis s.json s.uuids w.cache id w.redis).0 ≡ some b
    → (Backups.get_backup s claims id w).0 ≡ ok (from_backup b)
unfolding Backups.get_backup cached or_else ◌>>=◌
get_backup-hit s id b claims w own hit = rw (hit, own, ==_refl)

fmt_allowed : (status : BackupStatus) → is_allowed (fmt status) ≡ true
unfolding fmt
fmt_allowed pending = refl
fmt_allowed running = refl
fmt_allowed completed = refl
fmt_allowed failed = refl

-- A row that is written with a status of the enumeration, or with none, keeps an allowed one.
written_allowed :
    (status : Option BackupStatus) (size : Option ℤ) (a : Attempt) (r : Backup)
    → is_allowed r.status ≡ true
    → is_allowed (written (map_option fmt status) size a r).status ≡ true
written_allowed none size a r h = h
written_allowed (some status) size a r h = fmt_allowed status

all_allowed :
    (p : Backup → Bool) (f : Backup → Backup) (t : Table)
    → ((r : Backup) → is_allowed r.status ≡ true → is_allowed (f r).status ≡ true)
    → All HasAllowedStatus t
    → all (λ r. is_allowed r.status) (map f (select p t)) ≡ true
all_allowed p f [] k h = refl
all_allowed p f (r ∷ t) k (here, h) = elim (Bool-cases (p r)) [
  | inl hit ↦ rw (hit, k r here) (all_allowed p f t k h)
  | inr miss ↦ rw miss (all_allowed p f t k h)
]

module _ (s : Services) (claims : Claims) (id : Uuid) (req : UpdateBackupRequest) where
  abbrev pub change : Attempt → Backup → Backup
  change a = written (map_option fmt req.status) req.size_bytes a

  pub update_answer :
      (a : Attempt) (t : Table)
      → All HasAllowedStatus t
      → Sql.update_backup s.postgres id claims.tenant_id
          (map_option fmt req.status)
          req.size_bytes
          a
          t
        ≡ ok (
          map (change a) (select (is_row_of id claims.tenant_id) t),
          map_where (is_row_of id claims.tenant_id) (change a) t,
        )
  unfolding Sql.update_backup update_where
  update_answer a t statuses =
      let fine =
        all_allowed (is_row_of id claims.tenant_id) (change a) t
          (λ r. written_allowed req.status req.size_bytes a r) statuses in
      rw fine

  module _ (w : AppState s) (b : Backup) (arrives : (s.postgres.attempt w.db.server).link ≡ up)
      (statuses : All HasAllowedStatus w.db.table)
      (found : find (is_row_of id claims.tenant_id) w.db.table ≡ some b) where
    -- The row as the update leaves it.
    abbrev pub updated_row : Backup
    updated_row = change (s.postgres.attempt w.db.server) b

    abbrev table_after_update : Table
    table_after_update =
        map_where (is_row_of id claims.tenant_id) (change (s.postgres.attempt w.db.server))
          w.db.table

    abbrev pub after_update : AppState s
    after_update = record (after_statement s table_after_update w) {
      redis = after_invalidations s.redis s.json s.uuids w.cache id claims.tenant_id w.redis;
    }

    pub update_backup_lem :
        Backups.update_backup s claims id req w ≡ (ok (from_backup updated_row), after_update)
    unfolding Backups.update_backup cached ok_or ◌>>=◌
    update_backup_lem =
        let a = s.postgres.attempt w.db.server in
        let one =
          query-up s database
            (Sql.update_backup s.postgres id claims.tenant_id (map_option fmt req.status)
              req.size_bytes)
            w _ _ arrives (update_answer a w.db.table statuses) in
        let head =
          first-map (is_row_of id claims.tenant_id) (change a) (λ r. refl) w.db.table b found in
        rw (one, head)
