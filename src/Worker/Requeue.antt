-- ===== src/Worker/Requeue.antt =====
-- crates/backup-worker/src/main.rs over grpc.rs: a job whose backup has been deleted.
use backup_service.Common.{
  ℕ, zero, suc, ◌≡◌, refl, ap, String, true, none, Result, ok, List, [], ◌∷◌, find, ◌>>=◌,
}
use backup_service.Jobs.{BackupJob}
use backup_service.Services.{Services, up}
use backup_service.Services.Laws.{IsUuids}
use backup_service.Sql.{has_id}
use backup_service.State.{AppState}
use backup_service.State.Access.{after_statement}
use backup_service.Grpc.Reports.{update_status_missing}
use backup_service.Worker.{nack, called, process_and_report, handle_delivery, running}
use backup_service.Worker.Settling.{settlements}
use backup_service.Worker.Pipeline.{grpc_client}

abbrev pub repeat {ℓ} : {A : Type ℓ} → ℕ → A → List A
repeat zero a = []
repeat (suc n) a = a ∷ repeat n a

module _ (s : Services) (uuids : IsUuids s.uuids) (job : BackupJob) (payload : String)
    (joined : Result (Unit {0}) String) (parsed : s.json.job_from_slice payload ≡ ok job)
    (arrive : (server : s.postgres.Server) → (s.postgres.attempt server).link ≡ up) where
  handle_missing :
      (w : AppState s)
      → find (has_id job.backup_id) w.db.table ≡ none
      → handle_delivery s.floats s.uuids s.json (grpc_client s) payload joined w
        ≡ ((nack true, true), after_statement s w.db.table w)
  unfolding handle_delivery process_and_report called ◌>>=◌
  handle_missing w absent =
      let msg = running s.floats s.uuids (grpc_client s) job in
      rw (
        parsed,
        update_status_missing s w job.backup_id (arrive w.db.server) msg
            (uuids.round_trip job.backup_id) absent,
      )

  -- A job whose backup has been deleted is put back every time: if ids read back and every
  -- statement runs and is answered, each of `n` deliveries of it is settled with a requeue.
  pub settlements-missing :
      (n : ℕ) (w : AppState s)
      → find (has_id job.backup_id) w.db.table ≡ none
      → (settlements s.floats s.uuids s.json (grpc_client s) (repeat n (payload, joined)) w).0
        ≡ repeat n (nack true)
  settlements-missing zero w absent = refl
  settlements-missing (suc n) w absent =
      rw (handle_missing w absent)
        (ap (λ l. nack true ∷ l) (settlements-missing n (after_statement s w.db.table w) absent))
