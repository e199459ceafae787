-- ===== src/Tests/Jobs.antt =====
-- The theorems on jobs and their reports, on concrete runs.
use backup_service.Common.{
  ◌*◌, ◌≡◌, refl, String, true, some, Result, ok, err, List, [], ◌∷◌, ◌++◌, find, length, map,
}
use backup_service.Common.Int.{pos}
use backup_service.SourcePath.{validate_source_path}
use backup_service.SourcePath.Accepted.{IsSafePath, validate_source_path_iff}
use backup_service.Sql.{has_id}
use backup_service.State.{AppState}
use backup_service.Worker.{
  nack, stopped, shutdown_changed, stream_ended, process_and_report, handle_delivery, run_worker,
}
use backup_service.Worker.Settling.{
  Tells, handle_delivery-Tells, sent, settlements, run_worker-settlements,
}
use backup_service.Worker.Pipeline.{grpc_client, process_and_report_completes}
use backup_service.Worker.Again.{Completes, process_and_report-process_and_report}
use backup_service.Worker.Requeue.{repeat, settlements-missing}
use backup_service.Tests.Fixtures.{services, world, row, job, floats, uuids, json, uuids_laws}

job-IsSafePath : IsSafePath job.source_path
unfolding validate_source_path
job-IsSafePath = (validate_source_path_iff "/srv").0 refl

process_and_report_completes_example :
    ((process_and_report floats uuids (grpc_client services) job (ok tt) world).0 ≡ ok tt)
    × (find
          (has_id 7)
          (process_and_report floats uuids (grpc_client services) job (ok tt) world).1.db.table
        ≡ some (record row { size_bytes = pos (8192 * 128); status = "completed"; updated_at = 1 }))
process_and_report_completes_example =
    process_and_report_completes services world job row uuids_laws refl refl refl job-IsSafePath

handle_delivery-Tells_example :
    Tells floats uuids json
      (grpc_client services)
      "job"
      (ok tt)
      world
      (handle_delivery floats uuids json (grpc_client services) "job" (ok tt) world).0.0
handle_delivery-Tells_example =
    handle_delivery-Tells floats uuids json (grpc_client services) "job" (ok tt) world

abbrev deliveries : List (String × Result (Unit {0}) String)
deliveries = ("job", ok tt) ∷ ("garbage", ok tt) ∷ ("job", err "panicked") ∷ []

run_worker-settlements_example :
    (run_worker floats uuids json
        (grpc_client services)
        (map sent deliveries ++ shutdown_changed true ∷ stream_ended ∷ [])
        world
      ≡ (
        (settlements floats uuids json (grpc_client services) deliveries world).0,
        stopped,
        (settlements floats uuids json (grpc_client services) deliveries world).1,
      ))
    × (length (settlements floats uuids json (grpc_client services) deliveries world).0
        ≡ length deliveries)
run_worker-settlements_example =
    run_worker-settlements floats uuids json (grpc_client services) deliveries (stream_ended ∷ [])
      world

-- No row is left.
abbrev emptied : AppState services
emptied = record world { db = record world.db { table = [] } }

settlements-missing_example :
    (settlements floats uuids json (grpc_client services) (repeat 3 ("job", ok tt)) emptied).0
    ≡ repeat 3 (nack true)
settlements-missing_example =
    settlements-missing services uuids_laws job "job" (ok tt) refl (λ server. refl) 3 emptied refl

-- The blocking task of the first delivery panics.
process_and_report-process_and_report_example :
    Completes services job uuids_laws
      (λ server. refl)
      job-IsSafePath
      (process_and_report floats uuids (grpc_client services) job (err "panicked") world).1
      row
process_and_report-process_and_report_example =
    process_and_report-process_and_report services job uuids_laws (λ server. refl) job-IsSafePath
      world row refl (err "panicked")
