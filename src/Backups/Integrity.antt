-- ===== src/Backups/Integrity.antt =====
-- handlers/backups.rs: what every handler keeps of the table, however the services fare.
use backup_service.SourcePath.{validate_source_path}
use backup_service.Common.{◌>>=◌, String, ◌≡◌, Option, none, some, ok, err}
use backup_service.Common.Outcome.Keeps.{Keeps, keeps_rules}
use backup_service.Models.{Uuid, fmt, CreateBackupRequest, UpdateBackupRequest, ListParams, Claims}
use backup_service.Errors.{AppError}
use backup_service.Services.{Services}
use backup_service.Sql.{Table, insert_backup, update_backup, delete_backup}
use backup_service.Sql.Integrity.{
  Preserves, select_backup-keeps, select_count-keeps, select_page-keeps,
}
use backup_service.State.{AppState}
use backup_service.State.Access.{OnTable, Keeps-query, Keeps-cached}
use backup_service.Backups
use backup_service.Backups.{
  map_option, Handler, Joined, ok_or, or_else, select_or_not_found, get_from_db, list_from_db, join,
  publish,
}
use backup_service.Jobs.{BackupJob}

-- A request whose path is refused changes nothing.
pub create_backup_refused :
    (s : Services) (claims : Claims) (req : CreateBackupRequest) (e : AppError) (w : AppState s)
    → validate_source_path req.source_path ≡ err e
    → Backups.create_backup s claims req w ≡ (err e, w)
unfolding Backups.create_backup ◌>>=◌
create_backup_refused s claims req e w h = rw h

module _ (s : Services) (P : Table → Type 0) where
  pub Keeps-ok_or : {A : Type 0} (o : Option A) (e : AppError) → Keeps (OnTable P) (ok_or s o e)
  unfolding ok_or
  Keeps-ok_or none e = search keeps_rules
  Keeps-ok_or (some a) e = search keeps_rules

  pub Keeps-or_else :
      {A : Type 0} (o : Option A) (m : Handler s A)
      → Keeps (OnTable P) m
      → Keeps (OnTable P) (or_else s o m)
  unfolding or_else
  Keeps-or_else none m k = k
  Keeps-or_else (some a) m k = search keeps_rules

  pub Keeps-join :
      {A : Type 0} (j : Joined s) (f : String → AppError) (a : A) → Keeps (OnTable P) (join s j f a)
  unfolding join
  Keeps-join (ok _) f a = search keeps_rules
  Keeps-join (err e) f a = search keeps_rules

  pub Keeps-publish : (job : BackupJob) → Keeps (OnTable P) (publish s job)
  unfolding publish
  Keeps-publish job = record { at = λ w h. h }

  pub ruleset handler_rules = (
    keeps_rules, Keeps-ok_or, Keeps-or_else, Keeps-join, Keeps-publish, Keeps-query, Keeps-cached,
    select_backup-keeps, select_count-keeps, select_page-keeps,
  )

  -- The handlers that only read, whatever the property.
  pub get_backup-Keeps :
      (claims : Claims) (id : Uuid) → Keeps (OnTable P) (Backups.get_backup s claims id)
  unfolding Backups.get_backup get_from_db select_or_not_found
  get_backup-Keeps claims id = search handler_rules depth 12

  pub list_backups-Keeps :
      (claims : Claims) (params : ListParams)
      → Keeps (OnTable P) (Backups.list_backups s claims params)
  unfolding Backups.list_backups list_from_db
  list_backups-Keeps claims params = search handler_rules depth 12

  pub analyze_backup-Keeps :
      (claims : Claims) (id : Uuid) (joined : Joined s)
      → Keeps (OnTable P) (Backups.analyze_backup s claims id joined)
  unfolding Backups.analyze_backup select_or_not_found
  analyze_backup-Keeps claims id joined = search handler_rules depth 12

  pub enqueue_backup-Keeps :
      (claims : Claims) (id : Uuid) → Keeps (OnTable P) (Backups.enqueue_backup s claims id)
  unfolding Backups.enqueue_backup select_or_not_found
  enqueue_backup-Keeps claims id = search handler_rules depth 12

  -- The handlers that write keep what their statement keeps.
  pub create_backup-Keeps :
      (claims : Claims) (req : CreateBackupRequest)
      → Preserves P
          (insert_backup s.postgres claims.tenant_id req.source_path req.encryption_enabled)
      → Keeps (OnTable P) (Backups.create_backup s claims req)
  unfolding Backups.create_backup
  create_backup-Keeps claims req k = search handler_rules depth 12

  pub update_backup-Keeps :
      (claims : Claims) (id : Uuid) (req : UpdateBackupRequest)
      → Preserves P
          (update_backup s.postgres id claims.tenant_id (map_option fmt req.status) req.size_bytes)
      → Keeps (OnTable P) (Backups.update_backup s claims id req)
  unfolding Backups.update_backup
  update_backup-Keeps claims id req k = search handler_rules depth 12

  pub delete_backup-Keeps :
      (claims : Claims) (id : Uuid)
      → Preserves P (delete_backup s.postgres id claims.tenant_id)
      → Keeps (OnTable P) (Backups.delete_backup s claims id)
  unfolding Backups.delete_backup
  delete_backup-Keeps claims id k = search handler_rules depth 12
