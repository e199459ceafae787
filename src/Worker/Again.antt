-- ===== src/Worker/Again.antt =====
-- crates/backup-worker/src/main.rs over grpc.rs: a job that is delivered again.
use mathlib.Core.Path.{subst}
use backup_service.Common.{◌*◌, ◌≡◌, ◌∙◌, refl, sym, ap, String, some, Result, ok, err, find, ◌>>=◌}
use backup_service.Common.Int.{pos}
use backup_service.Models.{Timestamp, Backup}
use backup_service.Jobs.{BackupJob}
use backup_service.Services.{Services, up}
use backup_service.Services.Laws.{IsUuids}
use backup_service.SourcePath.Accepted.{IsSafePath}
use backup_service.Sql.{has_id}
use backup_service.Sql.Lookup.{find-map_where, status_row}
use backup_service.State.{AppState}
use backup_service.Grpc.Reports.{after_update, update_status_found}
use backup_service.Worker.{Failure, running, called, joined_task, task_failed, process_and_report}
use backup_service.Worker.Pipeline.{grpc_client, process_and_report_completes}

module _ (s : Services) (job : BackupJob) (uuids : IsUuids s.uuids)
    (arrives : (server : s.postgres.Server) → (s.postgres.attempt server).link ≡ up)
    (safe : IsSafePath job.source_path) where
  -- A row as a job leaves it at a time.
  abbrev pub completed_at : Timestamp → Backup → Backup
  completed_at time b = record b {
    status = "completed";
    size_bytes = pos (8192 * 128);
    updated_at = time;
  }

  -- A delivery of the job, by how its blocking task ends.
  abbrev pub attempt :
      Result (Unit {0}) String → AppState s → Result (Unit {0}) Failure × AppState s
  attempt joined = process_and_report s.floats s.uuids (grpc_client s) job joined

  -- A delivery succeeds, and the row is then as `b` but for what the job writes.
  abbrev pub Completes : AppState s → Backup → Type 0
  Completes w b =
      ((attempt (ok tt) w).0 ≡ ok tt)
      × ((time : Timestamp) × (find (has_id job.backup_id) (attempt (ok tt) w).1.db.table
            ≡ some (completed_at time b)))

  module _ (w : AppState s) (b : Backup)
      (found : find (has_id job.backup_id) w.db.table ≡ some b) where
    abbrev half_done : AppState s
    half_done =
        after_update s w job.backup_id (arrives w.db.server)
          (running s.floats s.uuids (grpc_client s) job)

    attempt_failed : (e : String) → attempt (err e) w ≡ (err (task_failed e), half_done)
    unfolding process_and_report called joined_task ◌>>=◌
    attempt_failed e =
        rw
          (update_status_found s w job.backup_id (arrives w.db.server)
            (running s.floats s.uuids (grpc_client s) job) b (uuids.round_trip job.backup_id) refl
            found)
          refl

    Completes-at :
        (v : AppState s) (c : Backup)
        → find (has_id job.backup_id) v.db.table ≡ some c
        → ((time : Timestamp) → completed_at time c ≡ completed_at time b)
        → Completes v b
    Completes-at v c there same =
        let done =
          process_and_report_completes s v job c uuids (arrives _) (arrives _) there safe in
        (done.0, (_, done.1 ∙ ap some (same _)))

    -- A job that is delivered again does no harm: if every statement runs and is answered, ids
    -- read back, the path of the job is safe and its row exists, then after a first processing,
    -- however its blocking task has ended, a second one succeeds, and leaves the row as it was
    -- before the first but for the status "completed", the size 8192 * 128 and the time.
    pub process_and_report-process_and_report :
        (joined : Result (Unit {0}) String) → Completes (attempt joined w).1 b
    process_and_report-process_and_report (ok tt) =
        let done =
          process_and_report_completes s w job b uuids (arrives _) (arrives _) found safe in
        Completes-at (attempt (ok tt) w).1 _ done.1 (λ time. refl)
    process_and_report-process_and_report (err e) =
        subst (λ (x : Result (Unit {0}) Failure × AppState s). Completes x.1 b)
          (sym (attempt_failed e))
          (Completes-at half_done _
            (find-map_where job.backup_id (status_row "running" (s.postgres.attempt w.db.server))
              w.db.table b (λ r. refl) found)
            (λ time. refl))
