-- ===== src/Tests/Queue.antt =====
-- The theorems on the job queue, on concrete runs.
use backup_service.Common.{
  ℕ, zero, suc, ◌≡◌, refl, String, true, Option, none, Result, ok, err, List, [], ◌∷◌, ◌>>=◌,
}
use backup_service.Jobs.{queue_name}
use backup_service.Jobs.Durable.{published, publish_job-restart}
use backup_service.Jobs.Publish.{publish_job}
use backup_service.Jobs.Topology.{connect_rabbitmq}
use backup_service.Proto.{Ack, Status, internal}
use backup_service.Worker.{Event, delivery, delivery_error, Client}
use backup_service.Worker.Life.{Host}
use backup_service.Tests.Broker.{rabbit, rabbit_laws, new_broker}
use backup_service.Tests.Fixtures.{job, json}

abbrev amqp_url : String
amqp_url = "amqp://queue"

publish_job-restart_example :
    rabbit.ready
      (connect_rabbitmq rabbit amqp_url
        (rabbit.restart (published rabbit rabbit_laws json amqp_url amqp_url job new_broker))).1
      queue_name
    ≡ ("job", true) ∷ []
unfolding connect_rabbitmq publish_job ◌>>=◌
publish_job-restart_example =
    publish_job-restart rabbit rabbit_laws json amqp_url amqp_url job new_broker refl refl refl

-- A client whose first `n` calls fail; the state is the number of failures to come.
abbrev unavailable : ℕ → Result Ack Status × ℕ
unavailable zero = (ok (record { success = true; message = "" }), 0)
unavailable (suc n) = (err (internal "unavailable"), n)

abbrev unsteady : Client ℕ ℕ
unsteady = record { update_status = λ msg. unavailable; report_result = λ result. unavailable }

abbrev ends_well : ℕ → Result (Unit {0}) String
ends_well n = ok tt

abbrev waiting : List String
waiting = "job" ∷ "garbage" ∷ "job" ∷ []

abbrev host : Host rabbit ℕ
host = record { rabbit = new_broker; service = 1; settlements = [] }

abbrev no_var : String → Option String
no_var name = none

abbrev connects : String → Result (Unit {0}) String
connects target = ok tt

abbrev before : List Event
before = delivery "job" (ok tt) (ok tt) ∷ delivery_error "lost" ∷ []
