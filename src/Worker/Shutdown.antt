-- ===== src/Worker/Shutdown.antt =====
-- crates/backup-worker/src/main.rs: the end of the loop, and what the program makes of it.
use backup_service.Common.{String, true, false, Result, ok, err, List, [], ◌∷◌, ◌++◌, Exec, ◌>>◌}
use backup_service.Entropy.{Floats}
use backup_service.Services.{Json, Uuids, Rabbit}
use backup_service.Worker.{
  Client, Event, delivery, delivery_error, stream_ended, shutdown_changed, Settlement, Exit,
  waiting, stopped, failed, handle_delivery, ends_with, go_on, run_worker,
}
use backup_service.Worker.Life.{Ending, clean, timed_out, exited_with_error, Host}

-- The loop is left, by `break` or by `?`.
abbrev pub HasEnded : Exit → Type 0
HasEnded waiting = ⊥
HasEnded stopped = Unit
HasEnded (failed e) = Unit

module _ (f : Floats) (u : Uuids) (j : Json) {S : Type 0} (client : Client S f.F64) where
  go_on-HasEnded :
      (exit : Exit) (settlement : Settlement) (s : S) (later : List Settlement × Exit × S)
      → HasEnded later.1
      → HasEnded (go_on f u j client exit settlement s later).1
  go_on-HasEnded waiting settlement s later ended = ended
  go_on-HasEnded stopped settlement s later ended = ended
  go_on-HasEnded (failed e) settlement s later ended = tt

  -- Whatever comes before it, the loop does not outlast a shutdown.
  pub run_worker-HasEnded :
      (events rest : List Event) (s : S)
      → HasEnded (run_worker f u j client (events ++ shutdown_changed true ∷ rest) s).1
  unfolding run_worker
  run_worker-HasEnded [] rest s = tt
  run_worker-HasEnded (delivery payload joined settled ∷ events) rest s =
      let ((settlement, strict), s') = handle_delivery f u j client payload joined s in
      go_on-HasEnded (ends_with f u j client strict settled) settlement s'
        (run_worker f u j client (events ++ shutdown_changed true ∷ rest) s')
        (run_worker-HasEnded events rest s')
  run_worker-HasEnded (delivery_error e ∷ events) rest s = run_worker-HasEnded events rest s
  run_worker-HasEnded (stream_ended ∷ events) rest s = tt
  run_worker-HasEnded (shutdown_changed true ∷ events) rest s = tt
  run_worker-HasEnded (shutdown_changed false ∷ events) rest s = run_worker-HasEnded events rest s

-- A start that failed, or a task that has ended.
abbrev pub IsFinished : Result Ending String → Type 0
IsFinished (ok timed_out) = ⊥
IsFinished (ok clean) = Unit
IsFinished (ok (exited_with_error e)) = Unit
IsFinished (err e) = Unit

module _ (f : Floats) (u : Uuids) (j : Json) (r : Rabbit) {S : Type 0}
    (client : Client S f.F64) where
  -- From every state the code ends, but not by the timeout.
  record Finishes (code : Exec (Host r S) String Ending) : Type 0 where
    at : (host : Host r S) → IsFinished (code host).0
