-- ===== src/Startup/Sound.antt =====
-- crates/backup-service/src/main.rs: what every run of the service keeps of the database.
use mathlib.Core.Path.{subst, sym}
use backup_service.Common.{refl, String, Bool, false, Option, none, some, select}
use backup_service.Common.Outcome.Keeps.{Keeps, Keeps-bind, Keeps-lift, Keeps-pure}
use backup_service.Config.{AppConfig, non_empty}
use backup_service.Migrations.{Session, create_pool, run_migrations}
use backup_service.Migrations.Kept.{rows, IsConsistent, run_migrations-Keeps}
use backup_service.Services.{Services}
use backup_service.System.Integrity.{IsSound, perform_all-IsSound}
use backup_service.Telemetry.{TracerProvider}
use backup_service.Startup.{
  Environment, Process, Effect, log, on_session, connect_amqp, updater, start_updater,
  initial_state, can_happen, run_servers, run, main,
}

module _ (s : Services) where
  -- The catalog is consistent, and the rows are sound.
  abbrev pub IsSoundSession : Session s.postgres → Type 0
  IsSoundSession session = IsConsistent session.catalog × IsSound (rows session.catalog)

  abbrev pub SoundAt : Process s → Type 0
  SoundAt p = IsSoundSession p.session

  Keeps-log : (effect : Effect) → Keeps SoundAt (log s effect)
  unfolding log
  Keeps-log effect = record { at = λ p h. h }

  Keeps-connect_amqp : (url : String) → Keeps SoundAt (connect_amqp s url)
  unfolding connect_amqp
  Keeps-connect_amqp url = record { at = λ p h. h }

  Keeps-create_pool : (url : String) → Keeps SoundAt (on_session s (create_pool s.postgres url))
  unfolding on_session create_pool
  Keeps-create_pool url = record { at = λ p h. h }

  Keeps-run_migrations : Keeps SoundAt (on_session s (run_migrations s.postgres))
  unfolding on_session
  Keeps-run_migrations = record {
    at = λ p h.
        let kept =
          (run_migrations-Keeps s.postgres (rows p.session.catalog)).at p.session (h.0, refl) in
        (kept.0, subst IsSound (sym kept.1) h.1);
  }

  module _ (env : Environment s) where
    ruleset start_rules = (
      Keeps-bind, Keeps-lift, Keeps-pure, Keeps-log, Keeps-connect_amqp, Keeps-create_pool,
      Keeps-run_migrations,
    )

    Keeps-updater :
        (config : AppConfig) (url : Option String) → Keeps SoundAt (updater s env config url)
    Keeps-updater config none = Keeps-pure false
    Keeps-updater config (some url) = search start_rules depth 8

    Keeps-start_updater : (config : AppConfig) → Keeps SoundAt (start_updater s env config)
    unfolding start_updater
    Keeps-start_updater config = Keeps-updater config (non_empty config.apollo_config_url)

    Keeps-run_servers :
        (config : AppConfig) (amqp_channel updating : Bool)
        → Keeps SoundAt (run_servers s env config amqp_channel updating)
    unfolding run_servers initial_state
    Keeps-run_servers config amqp_channel updating = record {
      at = λ p h. (
        record { clean = h.0.clean; made = λ _. (_, refl) },
        perform_all-IsSound s (select (can_happen s env updating) env.operations)
            (initial_state s env config amqp_channel p) h.1,
      );
    }

    Keeps-run :
        (provider : Option TracerProvider) (config : AppConfig)
        → Keeps SoundAt (run s env provider config)
    unfolding run
    Keeps-run provider config =
        search (start_rules, Keeps-start_updater, Keeps-run_servers) depth 24

    -- Every run of the service, from its migrations to its shutdown, however it ends and
    -- whatever fails on its way, leaves the database sound if it was: the ids are distinct,
    -- every status is one of the four, every path is absolute and holds no "..", no failed
    -- migration is on record, and version 1 is on record only where the table exists.
    pub main-IsSoundSession :
        (p : Process s) → IsSoundSession p.session → IsSoundSession (main s env p).1.session
    unfolding main
    main-IsSoundSession p h =
        (Keeps-bind _ _ (Keeps-log _)
            (λ _. Keeps-bind _ _ (Keeps-lift _) (λ config. Keeps-run _ config))).at
          p h
