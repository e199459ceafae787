-- ===== src/Services.antt =====
-- The services and crates behind the program, as parameters: PostgreSQL, Redis, RabbitMQ, and the
-- crates for JSON, UUIDs and JWT. Their documented behaviour, where a theorem relies on it, is a
-- record of laws beside each.
pub mod Laws
use backup_service.Common.{ℕ, String, Bool, Option, Result, Exec, List}
use backup_service.Common.Int.{ℤ}
use backup_service.Models.{Uuid, Timestamp, Backup, Claims}
use backup_service.Jobs.{BackupJob}
use backup_service.Entropy.{Floats}

-- How a statement fares: it runs and its reply arrives, it is refused before it runs, or it runs
-- and the reply is lost. A refused or lost statement is an `sqlx::Error`.
pub data Link : Type 0 where
  up : Link
  refused : String → Link
  lost : String → Link

-- What the server adds to a statement: `now()` and `gen_random_uuid()`.
pub record Attempt : Type 0 where
  pub link : Link
  pub now : Timestamp
  pub uuid : Uuid

-- The options of a pool, the times in seconds.
pub record PoolOptions : Type 0 where
  pub max_connections : ℕ
  pub min_connections : ℕ
  pub acquire_timeout : ℕ
  pub idle_timeout : ℕ

pub record Postgres : Type 1 where
  pub Server : Type 0
  pub connect : PoolOptions → (database_url : String) → Exec Server String (Unit {0})
  pub attempt : Server → Attempt
  pub next : Server → Server
  -- `ORDER BY created_at DESC`: SQL leaves the order of equal timestamps to the server.
  pub order_by_created_at_desc : List Backup → List Backup
  -- The texts of the errors that the table's constraints and a negative `LIMIT` raise.
  pub unique_violation : String
  pub check_violation : String
  pub negative_limit : String
  pub undefined_table : String
  -- Whether a text of several commands is accepted as one query, which sqlx prepares.
  pub scripts : Result (Unit {0}) String

-- A command answers with a `RedisResult`; a nil reply to `GET` is an error at type `String`.
pub record Redis : Type 1 where
  pub Server : Type 0
  pub get : String → Exec Server String String
  pub set_ex : String → String → ℕ → Exec Server String (Unit {0})
  pub del : String → Exec Server String (Unit {0})
  pub ping : Exec Server String String
  -- What a `GET` would find at a key, if its reply arrives.
  pub stored : Server → String → Option String

-- RabbitMQ through the `lapin` crate: a connection, a channel, and the commands on a channel.
pub record Rabbit : Type 1 where
  pub Server : Type 0
  pub connect : (amqp_url : String) → Exec Server String (Unit {0})
  pub create_channel : Exec Server String (Unit {0})
  pub exchange_declare : (exchange kind : String) (durable : Bool) → Exec Server String (Unit {0})
  pub queue_declare : (queue : String) (durable : Bool) → Exec Server String (Unit {0})
  pub queue_bind : (queue exchange routing_key : String) → Exec Server String (Unit {0})
  pub basic_publish :
      (exchange routing_key payload content_type : String) (delivery_mode : ℕ)
      → Exec Server String (Unit {0})
  pub basic_consume : (queue consumer_tag : String) → Exec Server String (Unit {0})
  -- What a broker has: the kind and durability of an exchange, the durability of a queue, whether
  -- a queue is bound to an exchange by a key, and the waiting messages, the first in front, each
  -- with whether it is persistent.
  pub exchange : Server → String → Option (String × Bool)
  pub queue : Server → String → Option Bool
  pub bound : Server → (queue exchange routing_key : String) → Bool
  pub ready : Server → String → List (String × Bool)
  -- Whether a frame that is sent now reaches the broker.
  pub reaches : Server → Bool
  -- The broker after it has been stopped and started.
  pub restart : Server → Server

-- serde_json at the types that the program stores or sends.
pub record Json : Type 0 where
  pub backup_to_string : Backup → Result String String
  pub backup_from_str : String → Result Backup String
  pub list_to_string : List Backup × ℤ → Result String String
  pub list_from_str : String → Result (List Backup × ℤ) String
  pub job_to_vec : BackupJob → String
  pub job_from_slice : String → Result BackupJob String

-- The `uuid` crate: `Display` and `parse`.
pub record Uuids : Type 0 where
  pub to_string : Uuid → String
  pub parse : String → Result Uuid String

-- The `jsonwebtoken` crate with the default header and validation. Decoding reads the clock, in
-- seconds since the epoch.
pub record Jwt : Type 0 where
  pub encode : Claims → (secret : String) → Result String String
  pub decode : (now : ℕ) → (token secret : String) → Result Claims String

pub record Services : Type 1 where
  pub postgres : Postgres
  pub redis : Redis
  pub rabbit : Rabbit
  pub json : Json
  pub uuids : Uuids
  pub jwt : Jwt
  pub floats : Floats
  -- The status and text with which axum answers where an extension is missing.
  pub missing_extension : ℕ × String
