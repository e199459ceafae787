-- ===== src/Startup/Refused.antt =====
-- crates/backup-service/src/main.rs over db.rs: a server that refuses a text of several commands.
use backup_service.Common.{◌≡◌, String, Option, Result, ok, err, map_err, [], ◌∷◌, All, All-append}
use backup_service.Common.Outcome.Keeps.{Keeps, Keeps-bind, Keeps-lift}
use backup_service.Common.Outcome.Achieves.{
  Achieves, Achieves-kept, Achieves-bind, Keeps-bind-achieved,
}
use backup_service.Config.{AppConfig}
use backup_service.Migrations.{create_pool, run_migrations}
use backup_service.Migrations.Refused.{IsPending, run_migrations_never, run_migrations-IsPending}
use backup_service.Services.{Services}
use backup_service.Telemetry.{TracerProvider, init_telemetry}
use backup_service.Startup.{
  Environment, Process, error, Effect, log, on_session, run, main, pool_created,
  telemetry_initialized,
}

-- What comes before the migrations.
abbrev pub IsEarly : Effect → Type 0
IsEarly (telemetry_initialized provider layers) = Unit
IsEarly pool_created = Unit
IsEarly _ = ⊥

-- Version 1 is not on record, and the service has not come past the migrations.
abbrev pub IsStuck : (s : Services) → Process s → Type 0
IsStuck s p = IsPending p.session.catalog × All IsEarly p.trace

module _ (s : Services) (e : String) (refuses : s.postgres.scripts ≡ err e) where
  map_err-ok : {A : Type 0} (r : Result A String) (a : A) → map_err error r ≡ ok a → r ≡ ok a
  map_err-ok (ok b) a same = cc
  map_err-ok (err x) a bad = cc

  module _ (effect : Effect) (early : IsEarly effect) where
    Keeps-log : Keeps (IsStuck s) (log s effect)
    unfolding log
    Keeps-log = record {
      at = λ p h. (h.0, All-append IsEarly p.trace (effect ∷ []) h.1 (early, tt));
    }

    Achieves-log : Achieves (IsStuck s) (log s effect) (λ _. IsStuck s)
    Achieves-log = Achieves-kept _ Keeps-log

  Keeps-create_pool : (url : String) → Keeps (IsStuck s) (on_session s (create_pool s.postgres url))
  unfolding on_session create_pool
  Keeps-create_pool url = record { at = λ p h. h }

  Keeps-migrations : Keeps (IsStuck s) (on_session s (run_migrations s.postgres))
  unfolding on_session
  Keeps-migrations = record {
    at = λ p h. ((run_migrations-IsPending s.postgres e refuses).at p.session h.0, h.1);
  }

  migrations_never : Achieves (IsStuck s) (on_session s (run_migrations s.postgres)) (λ _ _. ⊥)
  unfolding on_session
  migrations_never = record {
    at = λ p h a done.
        (run_migrations_never s.postgres e refuses).at p.session h.0 a
          (map_err-ok (run_migrations s.postgres p.session).0 a done);
  }

  module _ (env : Environment s) (provider : Option TracerProvider) (config : AppConfig) where
    run-Keeps : Keeps (IsStuck s) (run s env provider config)
    unfolding run
    run-Keeps = Keeps-bind _ _ (Keeps-create_pool config.database_url) (λ _.
        Keeps-bind _ _ (Keeps-log pool_created tt) (λ _.
          Keeps-bind-achieved {R = λ _ _. ⊥} (IsStuck s) _ _ Keeps-migrations migrations_never
            (λ _ _ bad. absurd bad)))

    run_never : Achieves (IsStuck s) (run s env provider config) (λ _ _. ⊥)
    unfolding run
    run_never =
        Achieves-bind {R = λ _. IsStuck s} _ _
          (Achieves-kept _ (Keeps-create_pool config.database_url))
          (λ _. Achieves-bind {R = λ _. IsStuck s} _ _ (Achieves-log pool_created tt) (λ _.
            Achieves-bind {R = λ _ _. ⊥} _ _ migrations_never
              (λ _. record { at = λ _ bad _ _. absurd bad })))

  -- If PostgreSQL refuses a text of several commands, version 1 is not on record, and the log has
  -- nothing past the creation of the pool, the service never comes up: it ends without success,
  -- its log has nothing past the pool, and version 1 is still not on record.
  pub main-IsStuck :
      (env : Environment s) (p : Process s)
      → IsStuck s p
      → ((main s env p).0 ≡ ok tt → ⊥) × IsStuck s (main s env p).1
  unfolding main
  main-IsStuck env p stuck =
      let (provider, layers) =
        init_telemetry env.tracing "backup-service" (env.var "OTEL_EXPORTER_OTLP_ENDPOINT") in
      let begins = telemetry_initialized provider layers in
      (
        (Achieves-bind {R = λ _. IsStuck s} _ _ (Achieves-log begins tt) (λ _.
              Achieves-bind {R = λ _. IsStuck s} _ _ (Achieves-kept _ (Keeps-lift _))
                (run_never env provider))).at
            p stuck tt,
        (Keeps-bind _ _ (Keeps-log begins tt)
              (λ _. Keeps-bind _ _ (Keeps-lift _) (run-Keeps env provider))).at
            p stuck,
      )
