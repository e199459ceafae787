-- ===== src/Backups/Refinement.antt =====
-- handlers/backups.rs: to its tenant the table is a store of its own.
use backup_service.Common.{
  ◌≡◌, refl, ap, ◌∙◌, String, Bool, not, none, ok, List, [], ◌∷◌, ◌++◌, ◌>>=◌, select, find, All,
  length, lift,
}
use backup_service.Common.Outcome.Keeps.{bind-at, bind-ok}
use backup_service.Models.{Uuid, fmt, Backup, CreateBackupRequest, UpdateBackupRequest, Claims}
use backup_service.Errors.{AppError, database}
use backup_service.Services.{Attempt, Postgres, Services, up}
use backup_service.SourcePath.{validate_source_path}
use backup_service.Sql
use backup_service.Sql.{Table, has_id, has_tenant, is_row_of, map_where, new_row, written}
use backup_service.Sql.Integrity.{HasAllowedStatus}
use backup_service.Sql.Tenancy.{rows_of}
use backup_service.Sql.Own.{rows_of-append, rows_of-map_where, rows_of-select}
use backup_service.State.{AppState, query}
use backup_service.State.Access.{OnTable, query-up, after_statement}
use backup_service.Backups
use backup_service.Backups.{map_option}
use backup_service.Backups.Integrity.{handler_rules}
use backup_service.Backups.Freshness.{change, update_answer}

delete_answer :
    (pg : Postgres) (id tenant : Uuid) (a : Attempt) (t : Table)
    → Sql.delete_backup pg id tenant a t
      ≡ ok (length (select (is_row_of id tenant) t), select (λ r. not (is_row_of id tenant r)) t)
unfolding Sql.delete_backup
delete_answer pg id tenant a t = refl

pub insert_answer :
    (pg : Postgres) (tenant : Uuid) (path : String) (encryption : Bool) (a : Attempt) (t : Table)
    → find (has_id a.uuid) t ≡ none
    → Sql.insert_backup pg tenant path encryption a t
      ≡ ok (new_row tenant path encryption a, t ++ new_row tenant path encryption a ∷ [])
unfolding Sql.insert_backup
insert_answer pg tenant path encryption a t fresh = rw (fresh, Sql.insert_backup)

accepted_lift :
    (s : Services) (req : CreateBackupRequest) (w : AppState s)
    → validate_source_path req.source_path ≡ ok tt
    → lift {E = AppError} (validate_source_path req.source_path) w ≡ (ok tt, w)
unfolding ◌>>=◌ lift
accepted_lift s req w valid = rw valid

module _ (s : Services) (claims : Claims) (w : AppState s)
    (arrives : (s.postgres.attempt w.db.server).link ≡ up) where
  abbrev a : Attempt
  a = s.postgres.attempt w.db.server

  update_table :
      (id : Uuid) (req : UpdateBackupRequest)
      → All HasAllowedStatus w.db.table
      → (Backups.update_backup s claims id req w).1.db.table
        ≡ map_where (is_row_of id claims.tenant_id) (change s claims id req a) w.db.table
  unfolding Backups.update_backup
  update_table id req statuses =
      let t = map_where (is_row_of id claims.tenant_id) (change s claims id req a) w.db.table in
      bind-at (OnTable (λ x. x ≡ t)) _ _ w (after_statement s t w) _
        (query-up s database
          (Sql.update_backup s.postgres id claims.tenant_id (map_option fmt req.status)
            req.size_bytes)
          w _ _ arrives (update_answer s claims id req a w.db.table statuses))
        (search handler_rules depth 12) refl

  delete_table :
      (id : Uuid)
      → (Backups.delete_backup s claims id w).1.db.table
        ≡ select (λ r. not (is_row_of id claims.tenant_id r)) w.db.table
  unfolding Backups.delete_backup
  delete_table id =
      let t = select (λ r. not (is_row_of id claims.tenant_id r)) w.db.table in
      bind-at (OnTable (λ x. x ≡ t)) _ _ w (after_statement s t w) _
        (query-up s database (Sql.delete_backup s.postgres id claims.tenant_id) w _ t arrives
          (delete_answer s.postgres id claims.tenant_id a w.db.table))
        (search handler_rules depth 12) refl

  create_table :
      (req : CreateBackupRequest)
      → validate_source_path req.source_path ≡ ok tt
      → find (has_id a.uuid) w.db.table ≡ none
      → (Backups.create_backup s claims req w).1.db.table
        ≡ w.db.table ++ new_row claims.tenant_id req.source_path req.encryption_enabled a ∷ []
  unfolding Backups.create_backup
  create_table req valid fresh =
      let t =
        w.db.table ++ new_row claims.tenant_id req.source_path req.encryption_enabled a ∷ [] in
      let checked =
        bind-ok (lift (validate_source_path req.source_path)) (λ _. query s database _ >>= _) w w tt
          (accepted_lift s req w valid) in
      ap (λ r. r.1.db.table) checked
      ∙ bind-at (OnTable (λ x. x ≡ t)) _ _ w (after_statement s t w) _
          (query-up s database
            (Sql.insert_backup s.postgres claims.tenant_id req.source_path req.encryption_enabled) w
            _ t arrives
            (insert_answer s.postgres claims.tenant_id req.source_path req.encryption_enabled a
              w.db.table fresh))
          (search handler_rules depth 12) refl

-- A tenant's own store: a list of its backups, and what each request makes of it.
pub data Change : Type 0 where
  created : CreateBackupRequest → Change
  updated : Uuid → UpdateBackupRequest → Change
  deleted : Uuid → Change

unfoldable pub apply : Uuid → Attempt → Change → List Backup → List Backup
apply tenant a (created req) rows =
    rows ++ new_row tenant req.source_path req.encryption_enabled a ∷ []
apply tenant a (updated id req) rows =
    map_where (has_id id) (written (map_option fmt req.status) req.size_bytes a) rows
apply tenant a (deleted id) rows = select (λ r. not (has_id id r)) rows

-- The handler of each.
unfoldable pub handle : (s : Services) → Claims → Change → AppState s → AppState s
handle s claims (created req) w = (Backups.create_backup s claims req w).1
handle s claims (updated id req) w = (Backups.update_backup s claims id req w).1
handle s claims (deleted id) w = (Backups.delete_backup s claims id w).1

-- What a change asks of its request and of the table.
abbrev pub Fits : Attempt → Change → Table → Type 0
Fits a (created req) t =
    (validate_source_path req.source_path ≡ ok tt) × (find (has_id a.uuid) t ≡ none)
Fits a (updated id req) t = All HasAllowedStatus t
Fits a (deleted id) t = Unit

-- To its tenant the table is a store of its own: if the first statement runs and its reply arrives,
-- a creation has an accepted path and a fresh id, and an update finds the statuses of the table
-- among the four, then the handlers that create, update and delete leave exactly the rows of the
-- tenant that the abstract store makes of them, in their order, also where no row has the id.
pub rows_of-handle :
    (s : Services) (claims : Claims) (change : Change) (w : AppState s)
    → (s.postgres.attempt w.db.server).link ≡ up
    → Fits (s.postgres.attempt w.db.server) change w.db.table
    → rows_of claims.tenant_id (handle s claims change w).db.table
      ≡ apply claims.tenant_id
          (s.postgres.attempt w.db.server)
          change
          (rows_of claims.tenant_id w.db.table)
unfolding handle apply
rows_of-handle s claims (created req) w arrives (valid, fresh) =
    rw (create_table s claims w arrives req valid fresh)
      (rows_of-append claims.tenant_id w.db.table _ refl)
rows_of-handle s claims (updated id req) w arrives statuses =
    rw (update_table s claims w arrives id req statuses)
      (rows_of-map_where claims.tenant_id id _ w.db.table (λ r. refl))
rows_of-handle s claims (deleted id) w arrives _ =
    rw (delete_table s claims w arrives id) (rows_of-select claims.tenant_id id w.db.table)
