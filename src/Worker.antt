-- ===== src/Worker.antt =====
-- crates/backup-worker/src/main.rs: the consumer of jobs.
pub mod Again
pub mod Drain
pub mod Life
pub mod Shutdown
pub mod Settling
pub mod Pipeline
pub mod Requeue
use Prim.Native.String
use backup_service.Common.{
  ℕ, ◌*◌, String, Bool, true, false, Result, ok, err, map_err, List, [], ◌∷◌, Exec, pure, raise,
  lift, ◌>>=◌, ◌>>◌, length,
}
use backup_service.Common.Int.{ℤ, pos}
use backup_service.Common.Bytes.{bytes, cycle_take}
use backup_service.Entropy.{Floats, shannon_entropy, classify, is_suspicious}
use backup_service.Jobs.{BackupJob}
use backup_service.Proto.{StatusUpdate, ProcessingResult, Ack, Status}
use backup_service.Services.{Json, Uuids}

-- The gRPC client, over a state `S` that its calls change: a call fails with the status that the
-- server or the transport gives.
pub record Client (S F : Type 0) : Type 0 where
  pub update_status : StatusUpdate → Exec S Status Ack
  pub report_result : ProcessingResult F → Exec S Status Ack

-- Why a job was not processed: `anyhow::Error` from a call or from the blocking task.
pub data Failure : Type 0 where
  call_failed : Status → Failure
  task_failed : String → Failure

-- `?` on a call
unfoldable pub called : {S A : Type 0} → Exec S Status A → Exec S Failure A
called m s = let (r, s') = m s in (map_err call_failed r, s')

-- `?` on the blocking task
unfoldable pub joined_task : {S : Type 0} → Result (Unit {0}) String → Exec S Failure (Unit {0})
joined_task r s = (map_err task_failed r, s)

module _ (f : Floats) (u : Uuids) {S : Type 0} (client : Client S f.F64) where
  abbrev pub running : BackupJob → StatusUpdate
  running job = record { backup_id = u.to_string job.backup_id; status = "running" }

  -- `synthetic_data`, `simulated_size` and the entropy with its class, as the report holds them.
  abbrev pub synthetic_data : BackupJob → List ℕ
  synthetic_data job = cycle_take 8192 (bytes job.source_path)

  abbrev pub report : BackupJob → ProcessingResult f.F64
  report job =
      let entropy = shannon_entropy f (synthetic_data job) in
      record {
        backup_id = u.to_string job.backup_id;
        status = "completed";
        size_bytes = pos (length (synthetic_data job) * 128);
        entropy = entropy;
        suspicious = is_suspicious (classify f entropy);
        error_message = "";
      }

  -- `process_and_report`; the last argument is how the blocking task ends.
  unfoldable pub process_and_report :
      BackupJob → Result (Unit {0}) String → Exec S Failure (Unit {0})
  process_and_report job joined = do
    called (client.update_status (running job))
    joined_task joined
    called (client.report_result (report job))
    pure tt

-- What the loop of `run_worker` waits for: a delivery, with how its blocking task and the sending of
-- its settlement end, an error in place of one, the end of the stream, or a change of the shutdown
-- flag.
pub data Event : Type 0 where
  delivery : (payload : String) (joined settled : Result (Unit {0}) String) → Event
  delivery_error : String → Event
  stream_ended : Event
  shutdown_changed : Bool → Event

-- The answer to a delivery.
pub data Settlement : Type 0 where
  ack : Settlement
  nack : (requeue : Bool) → Settlement

-- How the loop stands after its events: still waiting, left by `break`, or left by `?` on a
-- settlement.
pub data Exit : Type 0 where
  waiting stopped : Exit
  failed : String → Exit

module _ (f : Floats) (u : Uuids) (j : Json) {S : Type 0} (client : Client S f.F64) where
  -- One delivery: the settlement and whether a failure to send it ends the loop.
  abbrev settle : Result (Unit {0}) Failure → Settlement
  settle (ok _) = ack
  settle (err _) = nack true

  abbrev handle_job :
      Result BackupJob String → Result (Unit {0}) String → S → (Settlement × Bool) × S
  handle_job (err _) joined s = ((nack false, false), s)
  handle_job (ok job) joined s =
      let (r, s') = process_and_report f u client job joined s in ((settle r, true), s')

  unfoldable pub handle_delivery : String → Result (Unit {0}) String → S → (Settlement × Bool) × S
  handle_delivery payload joined = handle_job (j.job_from_slice payload) joined

  -- `delivery.ack(…).await?`, or `let _ = delivery.nack(…).await`
  abbrev ends_with : Bool → Result (Unit {0}) String → Exit
  ends_with true (err e) = failed e
  ends_with true (ok _) = waiting
  ends_with false r = waiting

  -- The rest of the loop runs unless `?` has left it.
  abbrev go_on : Exit → Settlement → S → List Settlement × Exit × S → List Settlement × Exit × S
  go_on (failed e) settlement s' later = (settlement ∷ [], failed e, s')
  go_on _ settlement s' later = (settlement ∷ later.0, later.1, later.2)

  -- The settlements that are sent, the exit and the state.
  unfoldable pub run_worker : List Event → S → List Settlement × Exit × S
  run_worker [] s = ([], waiting, s)
  run_worker (delivery payload joined settled ∷ events) s =
      let ((settlement, strict), s') = handle_delivery payload joined s in
      let later = run_worker events s' in go_on (ends_with strict settled) settlement s' later
  run_worker (delivery_error e ∷ events) s = run_worker events s
  run_worker (stream_ended ∷ events) s = ([], stopped, s)
  run_worker (shutdown_changed true ∷ events) s = ([], stopped, s)
  run_worker (shutdown_changed false ∷ events) s = run_worker events s
