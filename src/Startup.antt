-- ===== src/Startup.antt =====
-- crates/backup-service/src/main.rs: the service from its start to its end. Of the servers and of the
-- signal that ends them the model has what reaches the state: the operations between start and end.
pub mod Order
pub mod Refused
pub mod Serves
pub mod Sound
use backup_service.Common.{
  ℕ, String, Bool, true, false, Option, none, some, Result, ok, err, map_err, is_ok, List, [], ◌∷◌,
  ◌++◌, Exec, pure, lift, ◌>>=◌, ◌>>◌, empty, select,
}
use backup_service.Apollo.{ApolloUpdaterConfig}
use backup_service.Cache
use backup_service.Cache.{CacheLayer}
use backup_service.Config.{AppConfig, SocketAddr, non_empty, from_env}
use backup_service.Jobs.Topology.{connect_rabbitmq}
use backup_service.Migrations.{Session, create_pool, run_migrations}
use backup_service.Migrations.Kept.{rows}
use backup_service.Services.{Services}
use backup_service.State.{AppState}
use backup_service.System.{
  Operation, http, status_update, result_report, config_fetch, clock, perform_all,
}
use backup_service.Telemetry.{TracerProvider, Layer, Tracing, init_telemetry, shutdown_telemetry}

-- How the program ends before its time: `?`, or `expect`.
pub data Failure : Type 0 where
  error : String → Failure
  panicked : String → Failure

-- What the program has done so far, as its log tells it.
pub data Effect : Type 0 where
  telemetry_initialized : Option TracerProvider → List Layer → Effect
  pool_created migrations_applied : Effect
  updater_started : ApolloUpdaterConfig → Effect
  grpc_started http_listening : SocketAddr → Effect
  http_stopped grpc_stopped amqp_dropped : Effect
  telemetry_shut_down : Option (Result (Unit {0}) String) → Effect

-- What is around the program: its variables, the addresses that can be parsed and bound, the crates
-- that can fail at the start, the clocks, and what comes to the servers until the signal.
pub record Environment (s : Services) : Type 0 where
  pub var : String → Option String
  pub parse_addr : String → Result SocketAddr String
  pub tracing : Tracing
  pub open_client : (redis_url : String) → Result (Unit {0}) String
  pub connection_manager : Result (Unit {0}) String
  pub install_recorder : Result (Unit {0}) String
  pub build_client : (timeout : ℕ) → Result (Unit {0}) String
  pub bind : SocketAddr → Result (Unit {0}) String
  pub serve : Result (Unit {0}) String
  pub operations : List (Operation s)
  pub instant : ℕ
  pub utc : ℕ

-- The stores outside the program, and its log.
pub record Process (s : Services) : Type 0 where
  pub session : Session s.postgres
  pub redis : s.redis.Server
  pub rabbit : s.rabbit.Server
  pub trace : List Effect

-- `CacheLayer::new`
abbrev pub connected : Result (Unit {0}) String → Result (Unit {0}) String → Bool
connected (err e) manager = false
connected (ok _) manager = is_ok manager

module _ (s : Services) where
  abbrev pub Main : Type 0 → Type 0
  Main A = Exec (Process s) Failure A

  unfoldable pub log : Effect → Main (Unit {0})
  log effect p = (ok tt, record p { trace = p.trace ++ effect ∷ [] })

  -- A call on the pool, and `?`.
  unfoldable pub on_session : {A : Type 0} → Exec (Session s.postgres) String A → Main A
  on_session code p =
      let (r, session) = code p.session in (map_err error r, record p { session = session })

  -- The channel for publishing, or none: an error is only logged.
  unfoldable pub connect_amqp : String → Main Bool
  connect_amqp amqp_url p =
      let (r, rabbit) = connect_rabbitmq s.rabbit amqp_url p.rabbit in
      (ok (is_ok r), record p { rabbit = rabbit })

  module _ (env : Environment s) where
    -- Whether the updater runs.
    abbrev updater : AppConfig → Option String → Main Bool
    updater config none = pure false
    updater config (some url) = do
      lift (map_err panicked (env.build_client config.apollo_timeout_secs))
      log (
          updater_started (record {
            url = url;
            interval = config.apollo_poll_interval_secs;
            timeout = config.apollo_timeout_secs;
          }))
      pure true

    unfoldable pub start_updater : AppConfig → Main Bool
    start_updater config = updater config (non_empty config.apollo_config_url)

    -- `AppState::new`
    unfoldable pub initial_state : AppConfig → (amqp_channel : Bool) → Process s → AppState s
    initial_state config amqp_channel p = record {
      db = record { table = rows p.session.catalog; server = p.session.server };
      redis = p.redis;
      cache = Cache.new (connected (env.open_client config.redis_url) env.connection_manager);
      config = config;
      rate_limiter = empty;
      amqp_channel = amqp_channel;
      rabbit = p.rabbit;
      instant = env.instant;
      utc = env.utc;
      jobs_succeeded = 0;
      jobs_failed = 0;
    }

    -- Fetches are the updater's.
    abbrev can_happen : (updating : Bool) → Operation s → Bool
    can_happen updating (config_fetch fetched) = updating
    can_happen updating _ = true

    -- The stores as the running servers leave them.
    abbrev left_by : AppState s → Process s → Process s
    left_by w p = record p {
      session = record {
        catalog = record p.session.catalog { backups = some w.db.table };
        server = w.db.server;
      };
      redis = w.redis;
      rabbit = w.rabbit;
    }

    -- Both servers until the signal.
    unfoldable pub run_servers : AppConfig → (amqp_channel updating : Bool) → Main (Unit {0})
    run_servers config amqp_channel updating p =
        let operations = select (can_happen updating) env.operations in
        (
          map_err error env.serve,
          left_by (perform_all s operations (initial_state config amqp_channel p)) p,
        )

    -- From the configuration on.
    unfoldable pub run : Option TracerProvider → AppConfig → Main (Unit {0})
    run otel_provider config = do
      on_session (create_pool s.postgres config.database_url)
      log pool_created
      on_session (run_migrations s.postgres)
      log migrations_applied
      amqp_channel ← connect_amqp config.amqp_url
      lift (map_err panicked env.install_recorder)
      updating ← start_updater config
      log (grpc_started config.grpc_addr)
      lift (map_err error (env.bind config.listen_addr))
      log (http_listening config.listen_addr)
      run_servers config amqp_channel updating
      log http_stopped
      log grpc_stopped
      log amqp_dropped
      log (telemetry_shut_down (shutdown_telemetry env.tracing otel_provider))

    unfoldable pub main : Main (Unit {0})
    main =
        let (otel_provider, layers) =
          init_telemetry env.tracing "backup-service" (env.var "OTEL_EXPORTER_OTLP_ENDPOINT") in
        (do
          log (telemetry_initialized otel_provider layers)
          config ← lift (map_err error (from_env env.var env.parse_addr))
          run otel_provider config)
