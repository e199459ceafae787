-- ===== src/Jobs/Topology.antt =====
-- crates/backup-common/src/worker.rs: the connection to RabbitMQ and the declaration of its exchange
-- and queue. The options that the code leaves at their defaults are not parameters.
use backup_service.Common.{String, true, Exec, ◌>>◌}
use backup_service.Services.{Rabbit}
use backup_service.Jobs.{exchange_name, queue_name, routing_key}

module _ (r : Rabbit) where
  -- The connection and its first channel are in the server's state.
  unfoldable pub connect_rabbitmq : String → Exec r.Server String (Unit {0})
  connect_rabbitmq amqp_url = do
    r.connect amqp_url
    r.create_channel
    r.exchange_declare exchange_name "direct" true
    r.queue_declare queue_name true
    r.queue_bind queue_name exchange_name routing_key

  unfoldable pub create_channel : Exec r.Server String (Unit {0})
  create_channel = r.create_channel
