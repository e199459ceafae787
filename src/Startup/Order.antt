-- ===== src/Startup/Order.antt =====
-- crates/backup-service/src/main.rs: the order in which the service comes up and goes down.
use mathlib.Core.List.{append_assoc, append-nil}
use backup_service.Common.{
  ◌≡◌, refl, sym, ap, ◌∙◌, String, Bool, Option, none, some, Result, ok, err, List, [], ◌∷◌, ◌++◌,
  Exec, continue, ◌>>=◌, pure, lift,
}
use backup_service.Config.{AppConfig, non_empty, from_env}
use backup_service.Migrations.{Session}
use backup_service.Services.{Services}
use backup_service.Telemetry.{TracerProvider, init_telemetry, shutdown_telemetry}
use backup_service.Startup.{
  Environment, Process, Failure, Main, Effect, log, on_session, connect_amqp, updater,
  start_updater, run_servers, pool_created, migrations_applied, grpc_started, http_listening,
  http_stopped, grpc_stopped, amqp_dropped, telemetry_shut_down, updater_started,
  telemetry_initialized,
}

module _ (s : Services) where
  -- The code adds a first part of `effects` to the log, and all of them if it succeeds.
  pub record Follows {A : Type 0} (code : Main s A) (effects : List Effect) : Type 0 where
    pub at :
        (p : Process s)
        → (done rest : List Effect) × ((code p).1.trace ≡ p.trace ++ done)
          × (done ++ rest ≡ effects)
          × ((a : A) → (code p).0 ≡ ok a → rest ≡ [])

  -- The code logs no effect.
  pub record IsQuiet {A : Type 0} (code : Main s A) : Type 0 where
    pub at : (p : Process s) → (code p).1.trace ≡ p.trace

  module _ {A B : Type 0} (next : B → Main s A) (first effects : List Effect)
      (follows : (b : B) → Follows (next b) effects) where
    continue-Follows :
        (r : Result B Failure) (p : Process s) (before done rest : List Effect)
        → p.trace ≡ before ++ done
        → done ++ rest ≡ first
        → ((b : B) → r ≡ ok b → rest ≡ [])
        → (done rest : List Effect) × ((continue r next p).1.trace ≡ before ++ done)
          × (done ++ rest ≡ first ++ effects)
          × ((a : A) → (continue r next p).0 ≡ ok a → rest ≡ [])
    continue-Follows (ok b) p before done rest added split whole =
        let (done', rest', added', split', whole') = (follows b).at p in
        let all_done : done ≡ first =
          sym (append-nil done) ∙ ap (λ l. done ++ l) (sym (whole b refl)) ∙ split in
        (
          done ++ done',
          rest',
          added' ∙ ap (λ l. l ++ done') added ∙ append_assoc before done done',
          append_assoc done done' rest'
              ∙ ap (λ l. done ++ l) split'
              ∙ ap (λ l. l ++ effects) all_done,
          whole',
        )
    continue-Follows (err e) p before done rest added split whole = (
      done,
      rest ++ effects,
      added,
      sym (append_assoc done rest effects) ∙ ap (λ l. l ++ effects) split,
      λ a bad. cc,
    )

    Follows-bind :
        (code : Main s B) → Follows code first → Follows (code >>= next) (first ++ effects)
    unfolding ◌>>=◌
    Follows-bind code begins = record {
      at = λ p.
          let (done, rest, added, split, whole) = begins.at p in
          continue-Follows (code p).0 (code p).1 p.trace done rest added split whole;
    }

  Follows-log : (effect : Effect) → Follows (log s effect) (effect ∷ [])
  unfolding log
  Follows-log effect = record { at = λ p. (effect ∷ [], [], refl, refl, λ _ _. refl) }

  module _ {A : Type 0} (effects : List Effect) where
    Follows-log-then :
        (effect : Effect) (next : Unit {0} → Main s A)
        → ((b : Unit {0}) → Follows (next b) effects)
        → Follows (log s effect >>= next) (effect ∷ effects)
    Follows-log-then effect next follows =
        Follows-bind next (effect ∷ []) effects follows (log s effect) (Follows-log effect)

    Follows-quiet-then :
        {B : Type 0} (code : Main s B) (next : B → Main s A)
        → IsQuiet code
        → ((b : B) → Follows (next b) effects)
        → Follows (code >>= next) effects
    Follows-quiet-then code next quiet follows =
        Follows-bind next [] effects follows code
          (record { at = λ p. ([], [], quiet.at p ∙ sym (append-nil p.trace), refl, λ _ _. refl) })

  IsQuiet-lift : {A : Type 0} (r : Result A Failure) → IsQuiet (lift r)
  unfolding lift
  IsQuiet-lift r = record { at = λ p. refl }

  IsQuiet-on_session :
      {A : Type 0} (code : Exec (Session s.postgres) String A) → IsQuiet (on_session s code)
  unfolding on_session
  IsQuiet-on_session code = record { at = λ p. refl }

  IsQuiet-connect_amqp : (url : String) → IsQuiet (connect_amqp s url)
  unfolding connect_amqp
  IsQuiet-connect_amqp url = record { at = λ p. refl }

  module _ (env : Environment s) where
    IsQuiet-run_servers :
        (config : AppConfig) (amqp_channel updating : Bool)
        → IsQuiet (run_servers s env config amqp_channel updating)
    unfolding run_servers
    IsQuiet-run_servers config amqp_channel updating = record { at = λ p. refl }

    -- The start of the updater, where there is a URL.
    abbrev pub updater_effects : AppConfig → Option String → List Effect
    updater_effects config none = []
    updater_effects config (some url) =
        updater_started (record {
          url = url;
          interval = config.apollo_poll_interval_secs;
          timeout = config.apollo_timeout_secs;
        })
        ∷ []

    Follows-updater :
        (config : AppConfig) (url : Option String)
        → Follows (updater s env config url) (updater_effects config url)
    unfolding pure
    Follows-updater config none = record {
      at = λ p. ([], [], sym (append-nil p.trace), refl, λ _ _. refl);
    }
    Follows-updater config (some url) = Follows-quiet-then _ _ _ (IsQuiet-lift _) (λ _.
        Follows-log-then [] _ _
          (λ _. record { at = λ p. ([], [], sym (append-nil p.trace), refl, λ _ _. refl) }))

    -- Down again, after the servers.
    abbrev pub shutdown_effects : Option TracerProvider → List Effect
    shutdown_effects provider =
        http_stopped
        ∷ grpc_stopped
        ∷ amqp_dropped
        ∷ telemetry_shut_down (shutdown_telemetry env.tracing provider)
        ∷ []

    abbrev pub run_effects : Option TracerProvider → AppConfig → List Effect
    run_effects provider config =
        pool_created
          ∷ migrations_applied
          ∷ updater_effects config (non_empty config.apollo_config_url)
        ++ grpc_started config.grpc_addr
          ∷ http_listening config.listen_addr
          ∷ shutdown_effects provider

    Follows-updater-then :
        {A : Type 0} (config : AppConfig) (next : Bool → Main s A) (effects : List Effect)
        → ((updating : Bool) → Follows (next updating) effects)
        → Follows
            (start_updater s env config >>= next)
            (updater_effects config (non_empty config.apollo_config_url) ++ effects)
    unfolding start_updater
    Follows-updater-then config next effects follows =
        let url = non_empty config.apollo_config_url in
        Follows-bind next (updater_effects config url) effects follows (updater s env config url)
          (Follows-updater config url)

    ruleset order_rules = (
      Follows-log-then, Follows-quiet-then, Follows-updater-then, Follows-log, IsQuiet-lift,
      IsQuiet-on_session, IsQuiet-connect_amqp, IsQuiet-run_servers,
    )

    -- The whole life of the service, as the environment has it start.
    abbrev pub after_config : Option TracerProvider → Result AppConfig String → List Effect
    after_config provider (ok config) = run_effects provider config
    after_config provider (err e) = []

    abbrev pub life_cycle : List Effect
    life_cycle =
        let (provider, layers) =
          init_telemetry env.tracing "backup-service" (env.var "OTEL_EXPORTER_OTLP_ENDPOINT") in
        telemetry_initialized provider layers
        ∷ after_config provider (from_env env.var env.parse_addr)
