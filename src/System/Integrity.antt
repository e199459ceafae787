-- ===== src/System/Integrity.antt =====
-- The invariant of the table over the whole service: its constraints, and the paths that the handlers
-- let in.
use backup_service.Common.{◌≡◌, refl, String, Option, Result, ok, err, List, [], ◌∷◌, All}
use backup_service.Common.Int.{ℤ}
use backup_service.Common.Outcome.Keeps.{Keeps}
use backup_service.Models.{Uuid, Backup, CreateBackupRequest, Claims}
use backup_service.Errors.{AppError}
use backup_service.Services.{Services}
use backup_service.SourcePath.{validate_source_path}
use backup_service.SourcePath.Accepted.{IsSafePath, validate_source_path_iff}
use backup_service.Sql
use backup_service.Sql.{Table}
use backup_service.Sql.Integrity
use backup_service.Sql.Integrity.{IsWellFormed}
use backup_service.Sql.Rows
use backup_service.Sql.Rows.{Preserves-both}
use backup_service.State.{AppState, with_config_mut}
use backup_service.State.Access.{OnTable}
use backup_service.Backups.{create_backup}
use backup_service.Backups.Integrity.{
  create_backup_refused, create_backup-Keeps, get_backup-Keeps, list_backups-Keeps,
  update_backup-Keeps, delete_backup-Keeps, analyze_backup-Keeps, enqueue_backup-Keeps,
}
use backup_service.Grpc.Keeps.{update_status-Keeps, report_result-Keeps}
use backup_service.Http.{
  Protected, list, create, get, update, delete, analyze, process, protected, public,
}
use backup_service.Router.{call}
use backup_service.Router.Keeps.{serve-keeps, serve_public-keeps}
use backup_service.System.{
  Operation, http, status_update, result_report, config_fetch, clock, perform, perform_all,
  update_config,
}

abbrev pub HasSafePath : Backup → Type 0
HasSafePath r = IsSafePath r.source_path

-- Distinct ids, allowed statuses, and a safe path in every row.
abbrev pub IsSound : Table → Type 0
IsSound t = IsWellFormed t × All HasSafePath t

module _ (s : Services) where
  -- A request whose path is refused reaches no statement.
  create_backup-IsSound :
      (claims : Claims) (req : CreateBackupRequest)
      → Keeps (OnTable IsSound) (create_backup s claims req)
  create_backup-IsSound claims req = go (validate_source_path req.source_path) refl
    where
      go :
          (r : Result (Unit {0}) AppError)
          → validate_source_path req.source_path ≡ r
          → Keeps (OnTable IsSound) (create_backup s claims req)
      go (ok _) e = create_backup-Keeps s IsSound claims req (
          Preserves-both IsWellFormed (All HasSafePath) _
            (Integrity.insert_backup-IsWellFormed s.postgres claims.tenant_id req.source_path
              req.encryption_enabled)
            (Rows.insert_backup-All HasSafePath s.postgres claims.tenant_id req.source_path
              req.encryption_enabled (λ _. (validate_source_path_iff req.source_path).0 e)))
      go (err error) e = record { at = λ w h. rw (create_backup_refused s claims req error w e) h }

  update-IsSound :
      (id tenant : Uuid) (status : Option String) (size : Option ℤ)
      → Integrity.Preserves IsSound (Sql.update_backup s.postgres id tenant status size)
  update-IsSound id tenant status size =
      Preserves-both IsWellFormed (All HasSafePath) _
        (Integrity.update_backup-IsWellFormed s.postgres id tenant status size)
        (Rows.update_backup-All HasSafePath s.postgres (λ _ _ _ r h. h) id tenant status size)

  delete-IsSound :
      (id tenant : Uuid) → Integrity.Preserves IsSound (Sql.delete_backup s.postgres id tenant)
  delete-IsSound id tenant =
      Preserves-both IsWellFormed (All HasSafePath) _
        (Integrity.delete_backup-IsWellFormed s.postgres id tenant)
        (Rows.delete_backup-All HasSafePath s.postgres id tenant)

  set_status-IsSound :
      (status : String) (id : Uuid)
      → Integrity.Preserves IsSound (Sql.set_status s.postgres id status)
  set_status-IsSound status id =
      Preserves-both IsWellFormed (All HasSafePath) _
        (Integrity.set_status-IsWellFormed s.postgres id status)
        (Rows.set_status-All HasSafePath s.postgres (λ _ _ _ r h. h) id status)

  set_completed-IsSound :
      (size : ℤ) (id : Uuid) → Integrity.Preserves IsSound (Sql.set_completed s.postgres id size)
  set_completed-IsSound size id =
      Preserves-both IsWellFormed (All HasSafePath) _
        (Integrity.set_completed-IsWellFormed s.postgres id size)
        (Rows.set_completed-All HasSafePath s.postgres (λ _ _ _ r h. h) id size)

  set_failed-IsSound : (id : Uuid) → Integrity.Preserves IsSound (Sql.set_failed s.postgres id)
  set_failed-IsSound id =
      Preserves-both IsWellFormed (All HasSafePath) _
        (Integrity.set_failed-IsWellFormed s.postgres id)
        (Rows.set_failed-All HasSafePath s.postgres (λ _ _ _ r h. h) id)

  call-IsSound :
      (route : Protected) (claims : Claims) (w : AppState s)
      → OnTable IsSound w
      → OnTable IsSound (call s route claims w).1
  unfolding call
  call-IsSound (list params) claims w h = (list_backups-Keeps s IsSound claims params).at w h
  call-IsSound (create req) claims w h = (create_backup-IsSound claims req).at w h
  call-IsSound (get id) claims w h = (get_backup-Keeps s IsSound claims id).at w h
  call-IsSound (update id req) claims w h =
      (update_backup-Keeps s IsSound claims id req (update-IsSound id claims.tenant_id _ _)).at w h
  call-IsSound (delete id) claims w h =
      (delete_backup-Keeps s IsSound claims id (delete-IsSound id claims.tenant_id)).at w h
  call-IsSound (analyze id joined) claims w h =
      (analyze_backup-Keeps s IsSound claims id joined).at w h
  call-IsSound (process id) claims w h = (enqueue_backup-Keeps s IsSound claims id).at w h

  perform-IsSound :
      (op : Operation s) (w : AppState s) → OnTable IsSound w → OnTable IsSound (perform s op w)
  unfolding perform update_config with_config_mut
  perform-IsSound (http (protected route) request) w h =
      serve-keeps s IsSound (λ _. Unit) route (λ claims v _. call-IsSound route claims v) request w
        (λ _ _ _ _. tt) h
  perform-IsSound (http (public route) request) w h = serve_public-keeps s IsSound route request w h
  perform-IsSound (status_update msg) w h =
      (update_status-Keeps s IsSound msg (set_status-IsSound msg.status)).at w h
  perform-IsSound (result_report result) w h =
      (report_result-Keeps s IsSound result (set_completed-IsSound result.size_bytes)
          set_failed-IsSound).at
        w h
  perform-IsSound (config_fetch fetched) w h = h
  perform-IsSound (clock instant utc) w h = h

  -- Every sequence of requests, calls of the worker, fetches of the remote configuration and
  -- steps of the clock keeps the table sound, however the services answer: the ids are distinct,
  -- every status is one of the four, and every path is absolute and holds no "..".
  pub perform_all-IsSound :
      (ops : List (Operation s)) (w : AppState s)
      → IsSound w.db.table
      → IsSound (perform_all s ops w).db.table
  unfolding perform_all
  perform_all-IsSound [] w h = h
  perform_all-IsSound (op ∷ ops) w h =
      perform_all-IsSound ops (perform s op w) (perform-IsSound op w h)
