-- ===== src/Worker/Drain.antt =====
-- crates/backup-worker/src/main.rs with the queue that it consumes: a message that is put back is
-- delivered again.
use backup_service.Common.{
  ℕ, suc, ◌+◌, ◌≤◌, ◌<◌, ◌≡◌, String, true, Result, err, List, ◌∷◌, ◌++◌, length,
}
use backup_service.Entropy.{Floats}
use backup_service.Jobs.{BackupJob}
use backup_service.Services.{Json, Uuids}
use backup_service.Worker.{Client, Failure, Settlement, nack, process_and_report, handle_delivery}

-- The waiting messages after the one in front of `rest` has been settled: a message that is put back
-- may come to any place.
abbrev pub Leaves : Settlement → String → List String → List String → Type 0
Leaves (nack true) payload rest queue =
    (front back : List String) × (rest ≡ front ++ back) × (queue ≡ front ++ payload ∷ back)
Leaves _ payload rest queue = queue ≡ rest

module _ (f : Floats) (u : Uuids) (j : Json) {S : Type 0} (client : Client S f.F64)
    (blocking : S → Result (Unit {0}) String) where
  -- The messages, with the state that the calls change. `blocking` is how the blocking task ends.
  abbrev pub System : Type 0
  System = List String × S

  -- The processing of a job, and the handling of a delivery.
  abbrev pub processed : BackupJob → S → Result (Unit {0}) Failure × S
  processed job s = process_and_report f u client job (blocking s) s

  -- The worker takes the first message, handles it and settles it.
  pub data Step (after before : System) : Type 0 where
    take :
        (payload : String) (rest : List String)
        → before.0 ≡ payload ∷ rest
        → Leaves
            (handle_delivery f u j client payload (blocking before.1) before.1).0.0
            payload
            rest
            after.0
        → after.1 ≡ (handle_delivery f u j client payload (blocking before.1) before.1).1
        → Step after before

  -- A number of deliveries one after the other.
  pub data Runs (before : System) : ℕ → System → Type 0 where
    none_yet : Runs before 0 before
    one_more : {n : ℕ} {x y : System} → Runs before n x → Step y x → Runs before (suc n) y

  -- Every failure to process a job uses up one of finitely many.
  pub record IsFinite (failures : S → ℕ) : Type 0 where
    pub failure :
        (job : BackupJob) (s : S) (e : Failure)
        → (processed job s).0 ≡ err e
        → failures (processed job s).1 < failures s
    pub success : (job : BackupJob) (s : S) → failures (processed job s).1 ≤ failures s

  module _ (failures : S → ℕ) (finite : IsFinite failures) where
    abbrev pub size : System → ℕ
    size x = length x.0 + failures x.1
