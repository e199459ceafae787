-- ===== src/System/JobPath.antt =====
-- A job on its whole path: handlers/backups.rs puts it into the queue of
-- crates/backup-common/src/worker.rs, and crates/backup-worker/src/main.rs takes it out, over grpc.rs.
use Prim.Native.String
use mathlib.Core.Path.{subst}
use backup_service.Common.{
  ◌*◌, ◌≡◌, refl, ap, ◌∙◌, String, Bool, true, some, ok, Result, map_err, [], ◌∷◌, ◌++◌, find, pure,
  ◌>>=◌, ◌==◌, ==_iff, sym, Bool-cases, inl, inr, if◌then◌else◌, arith, raise,
}
use backup_service.Common.Int.{pos}
use backup_service.Models.{Uuid, Backup, Claims}
use backup_service.Errors.{database, internal}
use backup_service.Errors.StatusCode
use backup_service.Jobs.{BackupJob, queue_name}
use backup_service.Jobs.Durable.{IsDeclared, publish_job-ready}
use backup_service.Jobs.Publish.{publish_job}
use backup_service.Services.{Services, up}
use backup_service.Services.Laws.{IsRabbit, IsUuids}
use backup_service.SourcePath.Accepted.{IsSafePath}
use backup_service.Sql.{Table, has_id, is_row_of, select_backup}
use backup_service.State.{AppState}
use backup_service.State.Access.{query-up, after_statement}
use backup_service.Backups.{enqueue_backup, select_or_not_found, ok_or, publish}
use backup_service.Worker.{Settlement, ack, handle_delivery}
use backup_service.Worker.Pipeline.{grpc_client, process_and_report_completes}

-- The first row with the id is the tenant's own.
find-own :
    (id tenant : Uuid) (t : Table) (b : Backup)
    → find (has_id id) t ≡ some b
    → b.tenant_id ≡ tenant
    → find (is_row_of id tenant) t ≡ some b
find-own id tenant [] b h own = absurd (ground (arith, h))
find-own id tenant (r ∷ t) b h own = elim (Bool-cases (r.id == id)) [
  | inl hit ↦
      let here : some r ≡ some b = rw hit at h in
      let same : r ≡ b = cc here in
      let owned : (r.tenant_id == tenant) ≡ true =
        subst (λ (x : Backup). (x.tenant_id == tenant) ≡ true) (sym same) ((==_iff _ _).1 own) in
      rw (hit, owned) (ap some same)
  | inr miss ↦ rw miss (find-own id tenant t b (rw miss at h) own)
]

-- The message for a row.
abbrev pub job_of : Backup → BackupJob
job_of b = record {
  backup_id = b.id;
  tenant_id = b.tenant_id;
  source_path = b.source_path;
  encryption_enabled = b.encryption_enabled;
}

module _ (s : Services) (claims : Claims) (id : Uuid) (w : AppState s) (b : Backup)
    (arrives : (s.postgres.attempt w.db.server).link ≡ up)
    (found : find (is_row_of id claims.tenant_id) w.db.table ≡ some b)
    (channel : w.amqp_channel ≡ true)
    (publishes : (publish_job s.rabbit s.json (job_of b) w.rabbit).0 ≡ ok tt) where
  -- The state after the job has been put into the queue.
  abbrev pub enqueued : AppState s
  enqueued = record (after_statement s w.db.table w) {
    rabbit = (publish_job s.rabbit s.json (job_of b) w.rabbit).1;
  }

  selected : select_or_not_found s id claims.tenant_id w ≡ (ok b, after_statement s w.db.table w)
  unfolding select_or_not_found ok_or ◌>>=◌
  selected =
      let one =
        query-up s database (select_backup s.postgres id claims.tenant_id) w (some b) w.db.table
          arrives (unfold select_backup in rw found) in
      rw one

  publish-ok : publish s (job_of b) (after_statement s w.db.table w) ≡ (ok tt, enqueued)
  unfolding publish
  publish-ok =
      ap
        (λ (r : Result (Unit {0}) String).
          (map_err (λ e. internal (String.◌++◌ "failed to enqueue job: " e)) r, enqueued))
        publishes

  pub enqueue_backup_lem : enqueue_backup s claims id w ≡ (ok (StatusCode.accepted, id), enqueued)
  unfolding enqueue_backup ◌>>=◌
  enqueue_backup_lem =
      let w1 = after_statement s w.db.table w in
      rw selected (
        ap
          (λ c.
            ((if c then pure tt else raise (internal "RabbitMQ not configured")) >>= λ _.
            publish s (job_of b) >>= λ _. pure (StatusCode.accepted, id))
              w1)
          channel
        ∙ rw publish-ok refl)

module _ (s : Services) (rabbit : IsRabbit s.rabbit) (uuids : IsUuids s.uuids) (claims : Claims)
    (w : AppState s) (b : Backup)
    (arrives : (server : s.postgres.Server) → (s.postgres.attempt server).link ≡ up)
    (found : find (has_id b.id) w.db.table ≡ some b) where
  -- The worker's handling of the message, in the state that the handler leaves.
  abbrev pub delivered : (Settlement × Bool) × AppState s
  delivered =
      handle_delivery s.floats s.uuids s.json (grpc_client s) (s.json.job_to_vec (job_of b)) (ok tt)
        (enqueue_backup s claims b.id w).1

  -- A job on its whole path: if every statement runs and is answered, ids read back, the backup
  -- is the first with its id, is the tenant's and has a safe path, there is a channel, the
  -- exchange and the queue are declared, the message is sent without an error and reaches the
  -- broker, and the job reads back from it, then the request to process the backup answers 202,
  -- the message is the last in the queue, and the worker that handles it acknowledges it and
  -- leaves the row "completed" with the size 8192 * 128.
  pub enqueue_backup-handle_delivery :
      b.tenant_id ≡ claims.tenant_id
      → IsSafePath b.source_path
      → w.amqp_channel ≡ true
      → IsDeclared s.rabbit rabbit w.rabbit
      → s.rabbit.reaches w.rabbit ≡ true
      → (publish_job s.rabbit s.json (job_of b) w.rabbit).0 ≡ ok tt
      → s.json.job_from_slice (s.json.job_to_vec (job_of b)) ≡ ok (job_of b)
      → ((enqueue_backup s claims b.id w).0 ≡ ok (StatusCode.accepted, b.id))
        × (s.rabbit.ready (enqueue_backup s claims b.id w).1.rabbit queue_name
            ≡ s.rabbit.ready w.rabbit queue_name ++ (s.json.job_to_vec (job_of b), true) ∷ [])
        × (delivered.0.0 ≡ ack)
        × ((row : Backup) × (find (has_id b.id) delivered.1.db.table ≡ some row)
            × (row.status ≡ "completed")
            × (row.size_bytes ≡ pos (8192 * 128)))
  unfolding handle_delivery
  enqueue_backup-handle_delivery own safe channel declared reaches publishes reads =
      let tenant_row = find-own b.id claims.tenant_id w.db.table b found own in
      let one =
        enqueue_backup_lem s claims b.id w b (arrives w.db.server) tenant_row channel publishes in
      let w1 = enqueued s claims b.id w b (arrives w.db.server) tenant_row channel publishes in
      let done =
        process_and_report_completes s w1 (job_of b) b uuids (arrives _) (arrives _) found safe in
      (
        ap (λ r. r.0) one,
        ap (λ r. s.rabbit.ready r.1.rabbit queue_name) one
            ∙ publish_job-ready s.rabbit rabbit s.json (job_of b) w.rabbit declared reaches
                publishes,
        rw (one, reads, done.0) refl,
        rw (one, reads) (_, done.1, refl, refl),
      )
