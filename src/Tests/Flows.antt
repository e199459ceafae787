-- ===== src/Tests/Flows.antt =====
-- The theorems on what follows a request, on concrete runs.
use backup_service.Common.{◌*◌, ◌≡◌, refl, true, some, ok, [], ◌∷◌, none, ◌++◌, ◌>>=◌, find}
use backup_service.Common.Int.{pos}
use backup_service.Models.{ListParams, Backup}
use backup_service.Errors.StatusCode
use backup_service.Jobs.{queue_name}
use backup_service.Jobs.Durable.{IsDeclared}
use backup_service.Jobs.Publish.{publish_job}
use backup_service.Jobs.Topology.{connect_rabbitmq}
use backup_service.SourcePath.{validate_source_path}
use backup_service.SourcePath.Accepted.{IsSafePath, validate_source_path_iff}
use backup_service.Sql.{has_id}
use backup_service.State.{AppState}
use backup_service.Backups.{enqueue_backup}
use backup_service.Cache
use backup_service.System.JobPath.{delivered, enqueue_backup-handle_delivery}
use backup_service.Worker.{ack}
use backup_service.Tests.Broker.{rabbit, rabbit_laws, new_broker}
use backup_service.Tests.Fixtures.{services, world, row, claims, uuids_laws}

-- The cache holds the tenant's list of one row, which is then deleted.
abbrev listed : AppState services
listed = record world {
  redis =
      (Cache.set_tenant_backups services.redis services.json services.uuids world.cache world.config
        1 (row ∷ []) (pos 1) world.redis).1;
}

abbrev first_20 : ListParams
first_20 = record { offset = pos 0; limit = pos 20; status = none }

-- The broker after the service has connected.
abbrev ready_world : AppState services
ready_world = record world { rabbit = (connect_rabbitmq rabbit "amqp://queue" new_broker).1 }

ready_world-IsDeclared : IsDeclared rabbit rabbit_laws ready_world.rabbit
unfolding connect_rabbitmq ◌>>=◌
ready_world-IsDeclared = record { exchange = refl; queue = refl; binding = refl }

ready_world-publishes :
    (publish_job rabbit services.json
      (record { backup_id = 7; tenant_id = 1; source_path = "/srv"; encryption_enabled = true })
      ready_world.rabbit).0
    ≡ ok tt
unfolding publish_job
ready_world-publishes = refl

row-IsSafePath : IsSafePath row.source_path
unfolding validate_source_path
row-IsSafePath = (validate_source_path_iff "/srv").0 refl

enqueue_backup-handle_delivery_example :
    ((enqueue_backup services claims 7 ready_world).0 ≡ ok (StatusCode.accepted, 7))
    × (rabbit.ready (enqueue_backup services claims 7 ready_world).1.rabbit queue_name
        ≡ rabbit.ready ready_world.rabbit queue_name ++ ("job", true) ∷ [])
    × ((delivered services rabbit_laws uuids_laws claims ready_world row (λ _. refl) refl).0.0
        ≡ ack)
    × ((after : Backup) × (find
            (has_id 7)
            (delivered services rabbit_laws uuids_laws claims ready_world row
              (λ _. refl)
              refl).1.db.table
          ≡ some after)
        × (after.status ≡ "completed")
        × (after.size_bytes ≡ pos (8192 * 128)))
enqueue_backup-handle_delivery_example =
    enqueue_backup-handle_delivery services rabbit_laws uuids_laws claims ready_world row
      (λ _. refl) refl refl row-IsSafePath refl ready_world-IsDeclared refl ready_world-publishes
      refl
