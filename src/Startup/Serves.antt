-- ===== src/Startup/Serves.antt =====
-- crates/backup-service/src/main.rs: a start that nothing hinders.
use backup_service.Common.{
  ℕ, false, lift, ◌>>◌, ◌≡◌, refl, String, Bool, true, Option, none, some, Result, ok, map_err,
  List, Exec, ◌>>=◌,
}
use backup_service.Common.Outcome.Runs.{Runs, Runs-bind, Runs-pure, Runs-lift}
use backup_service.Config.{AppConfig, non_empty, from_env}
use backup_service.Migrations.{pool_options}
use backup_service.Migrations.Kept.{IsConsistent}
use backup_service.Migrations.Rerun.{Answered}
use backup_service.Services.{Services}
use backup_service.Telemetry.{TracerProvider, shutdown_telemetry}
use backup_service.Startup.{
  Environment, Process, Failure, error, panicked, Effect, log, connect_amqp, updater, start_updater,
  run_servers, migrations_applied, grpc_started, http_listening, http_stopped, grpc_stopped,
  amqp_dropped, telemetry_shut_down,
}

map_err-IsOk : {A E F : Type 0} (f : E → F) (r : Result A E) (a : A) → r ≡ ok a → map_err f r ≡ ok a
map_err-IsOk f r a e = rw e refl

module _ (s : Services) where
  Runs-log : (effect : Effect) → Runs (log s effect)
  unfolding log
  Runs-log effect = record { at = λ p. (tt, refl) }

  Runs-connect_amqp : (url : String) → Runs (connect_amqp s url)
  unfolding connect_amqp
  Runs-connect_amqp url = record { at = λ p. (_, refl) }

  -- Nothing hinders the start: the configuration reads, the pool is created and its next four
  -- commands are answered, a text of several commands is accepted, the catalog is consistent, and
  -- the recorder, the client, the listener and the server report no error.
  pub record IsWorking (env : Environment s) (config : AppConfig) (p : Process s) : Type 0 where
    pub parsed : from_env env.var env.parse_addr ≡ ok config
    pub connects : (s.postgres.connect pool_options config.database_url p.session.server).0 ≡ ok tt
    pub answered :
        Answered s.postgres 4
          (s.postgres.connect pool_options config.database_url p.session.server).1
    pub accepted : s.postgres.scripts ≡ ok tt
    pub consistent : IsConsistent p.session.catalog
    pub recorder : env.install_recorder ≡ ok tt
    pub client : (timeout : ℕ) → env.build_client timeout ≡ ok tt
    pub listener : env.bind config.listen_addr ≡ ok tt
    pub server : env.serve ≡ ok tt

  module _ (env : Environment s) (config : AppConfig) (p : Process s)
      (working : IsWorking env config p) where
    Runs-panicking :
        (r : Result (Unit {0}) String)
        → r ≡ ok tt
        → Runs (lift {S = Process s} (map_err panicked r))
    Runs-panicking r e = Runs-lift _ (tt, map_err-IsOk panicked r tt e)

    Runs-updater : (url : Option String) → Runs (updater s env config url)
    Runs-updater none = Runs-pure false
    Runs-updater (some url) =
        Runs-bind _ _ (Runs-panicking _ (working.client config.apollo_timeout_secs))
          (λ _. Runs-bind _ _ (Runs-log _) (λ _. Runs-pure true))

    Runs-start_updater : Runs (start_updater s env config)
    unfolding start_updater
    Runs-start_updater = Runs-updater (non_empty config.apollo_config_url)

    Runs-recorder : Runs (lift {S = Process s} (map_err panicked env.install_recorder))
    Runs-recorder = Runs-panicking _ working.recorder

    Runs-bind_listener : Runs (lift {S = Process s} (map_err error (env.bind config.listen_addr)))
    Runs-bind_listener = Runs-lift _ (tt, map_err-IsOk error _ tt working.listener)

    Runs-run_servers :
        (amqp_channel updating : Bool) → Runs (run_servers s env config amqp_channel updating)
    unfolding run_servers
    Runs-run_servers amqp_channel updating = record {
      at = λ p. (tt, map_err-IsOk error env.serve tt working.server);
    }

    ruleset serve_rules = (
      Runs-bind, Runs-log, Runs-connect_amqp, Runs-start_updater, Runs-recorder, Runs-bind_listener,
      Runs-run_servers,
    )

    -- The rest of the run, once the migrations have been applied.
    abbrev after_migrations : Option TracerProvider → Exec (Process s) Failure (Unit {0})
    after_migrations otel_provider = do
      log s migrations_applied
      amqp_channel ← connect_amqp s config.amqp_url
      lift (map_err panicked env.install_recorder)
      updating ← start_updater s env config
      log s (grpc_started config.grpc_addr)
      lift (map_err error (env.bind config.listen_addr))
      log s (http_listening config.listen_addr)
      run_servers s env config amqp_channel updating
      log s http_stopped
      log s grpc_stopped
      log s amqp_dropped
      log s (telemetry_shut_down (shutdown_telemetry env.tracing otel_provider))
