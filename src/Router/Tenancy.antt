-- ===== src/Router/Tenancy.antt =====
-- router.rs: a request of one tenant leaves the backups of every other as they are.
use backup_service.Common.{◌≡◌, refl, ◌≢◌, List}
use backup_service.Models.{Uuid, Backup, Claims}
use backup_service.Services.{Services}
use backup_service.Sql.Tenancy.{rows_of, Holds}
use backup_service.State.{AppState}
use backup_service.State.Access.{OnTable}
use backup_service.Backups.History.{handle-Holds}
use backup_service.Backups.Integrity.{
  get_backup-Keeps, list_backups-Keeps, analyze_backup-Keeps, enqueue_backup-Keeps,
}
use backup_service.Backups.Refinement.{created, updated, deleted, handle}
use backup_service.Http.{
  Protected, list, create, get, update, delete, analyze, process, protected, Request,
}
use backup_service.Middleware.Keeps.{Bears}
use backup_service.Router.{call, serve}
use backup_service.Router.Keeps.{serve-keeps}

module _ (s : Services) (u : Uuid) where
  call-Holds :
      (rows : List Backup) (route : Protected) (claims : Claims) (w : AppState s)
      → claims.tenant_id ≢ u
      → OnTable (Holds u rows) w
      → OnTable (Holds u rows) (call s route claims w).1
  unfolding call handle
  call-Holds rows (list params) claims w ne h =
      (list_backups-Keeps s (Holds u rows) claims params).at w h
  call-Holds rows (create req) claims w ne h = handle-Holds s u rows claims (created req) w ne h
  call-Holds rows (get id) claims w ne h = (get_backup-Keeps s (Holds u rows) claims id).at w h
  call-Holds rows (update id req) claims w ne h =
      handle-Holds s u rows claims (updated id req) w ne h
  call-Holds rows (delete id) claims w ne h = handle-Holds s u rows claims (deleted id) w ne h
  call-Holds rows (analyze id joined) claims w ne h =
      (analyze_backup-Keeps s (Holds u rows) claims id joined).at w h
  call-Holds rows (process id) claims w ne h =
      (enqueue_backup-Keeps s (Holds u rows) claims id).at w h

  -- A protected request whose token, if it reads, is not of the tenant `u` leaves the rows of `u`
  -- as they are, however the statements and commands on the way fail.
  pub serve-rows_of :
      (route : Protected) (request : Request) (w : AppState s)
      → Bears s (λ claims. claims.tenant_id ≢ u) request w
      → rows_of u (serve s (protected route) request w).1.db.table ≡ rows_of u w.db.table
  serve-rows_of route request w foreign =
      let rows = rows_of u w.db.table in
      serve-keeps s (Holds u rows) (λ claims. claims.tenant_id ≢ u) route
        (λ claims v ne h. call-Holds rows route claims v ne h) request w foreign refl
