-- ===== src/Worker/Pipeline.antt =====
-- A job from the queue to the row: the worker's calls, answered by the service of grpc.rs.
use text.Mathlib.TextLemmas.{nil-append, cons-append}
use backup_service.Common.{◌*◌, ◌≡◌, refl, ap, ◌∙◌, some, ok, find, length, ◌>>=◌}
use backup_service.Common.Int.{pos}
use backup_service.Common.Bytes.{bytes, length-cycle_take}
use backup_service.Models.{Backup}
use backup_service.Jobs.{BackupJob}
use backup_service.Services.{Services, up}
use backup_service.Services.Laws.{IsUuids}
use backup_service.SourcePath.Accepted.{IsSafePath}
use backup_service.Sql.{has_id}
use backup_service.Sql.Lookup.{find-map_where, completed_row, status_row}
use backup_service.State.{AppState}
use backup_service.Grpc.{update_status, report_result}
use backup_service.Grpc.Reports.{after_update, report_result_completed, update_status_found}
use backup_service.Worker.{
  Client, running, report, synthetic_data, called, joined_task, process_and_report,
}

-- The client over the service itself: a call that reaches it.
abbrev pub grpc_client : (s : Services) → Client (AppState s) s.floats.F64
grpc_client s = record { update_status = update_status s; report_result = report_result s }

-- The synthetic data of a path that the service lets in fill their size.
pub length-synthetic_data :
    (s : Services) (job : BackupJob)
    → IsSafePath job.source_path
    → length (synthetic_data s.floats s.uuids (grpc_client s) job) ≡ 8192
unfolding bytes
length-synthetic_data s job ((rest, e), _) =
    rw (e, cons-append, nil-append) (length-cycle_take 8192 _ _)

module _ (s : Services) (w : AppState s) (job : BackupJob) (b : Backup) (uuids : IsUuids s.uuids)
    (first_arrives : (s.postgres.attempt w.db.server).link ≡ up)
    (second_arrives : (s.postgres.attempt (s.postgres.next w.db.server)).link ≡ up)
    (found : find (has_id job.backup_id) w.db.table ≡ some b) where
  -- The row as the two calls leave it.
  abbrev pub processed_row : Backup
  processed_row =
      completed_row (pos (8192 * 128)) (s.postgres.attempt (s.postgres.next w.db.server))
        (status_row "running" (s.postgres.attempt w.db.server) b)

  -- The worker processes a job over the service itself: if the first two statements run and their
  -- replies arrive, ids read back, the row of the job exists, its path is safe and the blocking
  -- task ends well, then processing succeeds, and the row is then as it was but for the status
  -- "completed", the size 8192 * 128 and the time of the second statement.
  pub process_and_report_completes :
      IsSafePath job.source_path
      → ((process_and_report s.floats s.uuids (grpc_client s) job (ok tt) w).0 ≡ ok tt)
        × (find
              (has_id job.backup_id)
              (process_and_report s.floats s.uuids (grpc_client s) job (ok tt) w).1.db.table
            ≡ some processed_row)
  unfolding process_and_report called joined_task ◌>>=◌
  process_and_report_completes safe =
      let msg = running s.floats s.uuids (grpc_client s) job in
      let result = report s.floats s.uuids (grpc_client s) job in
      let w1 = after_update s w job.backup_id first_arrives msg in
      let parsed = uuids.round_trip job.backup_id in
      let one = update_status_found s w job.backup_id first_arrives msg b parsed refl found in
      let two = report_result_completed s w1 job.backup_id second_arrives result parsed refl in
      let size = length-synthetic_data s job safe in
      let a1 = s.postgres.attempt w.db.server in
      let a2 = s.postgres.attempt w1.db.server in
      let first_row =
        find-map_where job.backup_id (status_row "running" a1) w.db.table b (λ r. refl) found in
      let row =
        find-map_where job.backup_id (completed_row result.size_bytes a2) w1.db.table
          (status_row "running" a1 b) (λ r. refl) first_row in
      (
        rw (one, two),
        rw (one, two)
            (row
              ∙ ap (λ n. some (completed_row (pos (n * 128)) a2 (status_row "running" a1 b))) size),
      )
