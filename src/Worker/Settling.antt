-- ===== src/Worker/Settling.antt =====
-- crates/backup-worker/src/main.rs: how the deliveries are settled.
use backup_service.Common.{
  suc, ◌≡◌, refl, ap, String, Bool, true, false, Result, ok, err, List, [], ◌∷◌, ◌++◌, map, length,
}
use backup_service.Entropy.{Floats}
use backup_service.Jobs.{BackupJob}
use backup_service.Services.{Json, Uuids}
use backup_service.Worker.{
  Client, Event, delivery, shutdown_changed, Settlement, ack, nack, waiting, stopped, Failure,
  process_and_report, handle_job, handle_delivery, ends_with, run_worker, settle,
}

-- A delivery whose settlement is sent.
abbrev pub sent : String × Result (Unit {0}) String → Event
sent (payload, joined) = delivery payload joined (ok tt)

module _ (f : Floats) (u : Uuids) (j : Json) {S : Type 0} (client : Client S f.F64) where
  -- A payload is no job.
  abbrev pub IsMalformed : String → Type 0
  IsMalformed payload = (e : String) × (j.job_from_slice payload ≡ err e)

  -- The outcome of a delivery whose payload is a job.
  abbrev pub IsProcessed : Settlement → Result (Unit {0}) Failure → Type 0
  IsProcessed ack r = r ≡ ok tt
  IsProcessed (nack true) r = (e : Failure) × (r ≡ err e)
  IsProcessed (nack false) r = ⊥

  settle-IsProcessed : (r : Result (Unit {0}) Failure) → IsProcessed (settle f u j client r) r
  settle-IsProcessed (ok tt) = refl
  settle-IsProcessed (err e) = (e, refl)

  -- What the settlement of a delivery says of it.
  abbrev pub Tells : String → Result (Unit {0}) String → S → Settlement → Type 0
  Tells payload joined s (nack false) = IsMalformed payload
  Tells payload joined s settlement =
      (job : BackupJob) × (j.job_from_slice payload ≡ ok job)
      × IsProcessed settlement (process_and_report f u client job joined s).0

  Tells-job :
      (payload : String) (joined : Result (Unit {0}) String) (s : S) (job : BackupJob)
      (r : Result (Unit {0}) Failure)
      → j.job_from_slice payload ≡ ok job
      → (process_and_report f u client job joined s).0 ≡ r
      → Tells payload joined s (settle f u j client r)
  Tells-job payload joined s job (ok tt) parsed e = (job, parsed, e)
  Tells-job payload joined s job (err x) parsed e = (job, parsed, (x, e))

  Tells-handle_job :
      (payload : String) (joined : Result (Unit {0}) String) (s : S) (r : Result BackupJob String)
      → j.job_from_slice payload ≡ r
      → Tells payload joined s (handle_job f u j client r joined s).0.0
  Tells-handle_job payload joined s (err e) parsed = (e, parsed)
  Tells-handle_job payload joined s (ok job) parsed =
      Tells-job payload joined s job (process_and_report f u client job joined s).0 parsed refl

  -- The settlement of a delivery tells what happened: it is dropped only if its payload is no
  -- job, acknowledged only if its job was processed without failure, and put back only if
  -- processing its job failed.
  pub handle_delivery-Tells :
      (payload : String) (joined : Result (Unit {0}) String) (s : S)
      → Tells payload joined s (handle_delivery f u j client payload joined s).0.0
  unfolding handle_delivery
  handle_delivery-Tells payload joined s =
      Tells-handle_job payload joined s (j.job_from_slice payload) refl

  -- The deliveries one after the other: their settlements and the state after them.
  abbrev pub settlements : List (String × Result (Unit {0}) String) → S → List Settlement × S
  settlements [] s = ([], s)
  settlements ((payload, joined) ∷ ds) s =
      let ((settlement, strict), s') = handle_delivery f u j client payload joined s in
      let (rest, s'') = settlements ds s' in (settlement ∷ rest, s'')

  ends_with-sent : (strict : Bool) → ends_with f u j client strict (ok tt) ≡ waiting
  ends_with-sent true = refl
  ends_with-sent false = refl

  run_worker-sent :
      (ds : List (String × Result (Unit {0}) String)) (rest : List Event) (s : S)
      → run_worker f u j client (map sent ds ++ shutdown_changed true ∷ rest) s
        ≡ ((settlements ds s).0, stopped, (settlements ds s).1)
  unfolding run_worker
  run_worker-sent [] rest s = refl
  run_worker-sent ((payload, joined) ∷ ds) rest s =
      let one = handle_delivery f u j client payload joined s in
      rw (ends_with-sent one.0.1, run_worker-sent ds rest one.1)

  length-settlements :
      (ds : List (String × Result (Unit {0}) String)) (s : S)
      → length (settlements ds s).0 ≡ length ds
  length-settlements [] s = refl
  length-settlements ((payload, joined) ∷ ds) s =
      ap suc (length-settlements ds (handle_delivery f u j client payload joined s).1)

  -- If the settlements of the deliveries before the shutdown can be sent, the worker handles them
  -- one after the other, sends one settlement for each in their order, stops at the shutdown, and
  -- handles nothing of what comes after it.
  pub run_worker-settlements :
      (ds : List (String × Result (Unit {0}) String)) (rest : List Event) (s : S)
      → (run_worker f u j client (map sent ds ++ shutdown_changed true ∷ rest) s
          ≡ ((settlements ds s).0, stopped, (settlements ds s).1))
        × (length (settlements ds s).0 ≡ length ds)
  run_worker-settlements ds rest s = (run_worker-sent ds rest s, length-settlements ds s)
