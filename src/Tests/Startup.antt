-- ===== src/Tests/Startup.antt =====
-- The theorems on the start and the end of the service, on concrete runs.
use backup_service.Common.{◌+◌, ◌≡◌, refl, true, none, ok, err, [], ◌∷◌, ◌==◌, if◌then◌else◌}
use backup_service.Http.{public, health, protected, create}
use backup_service.Migrations.{Catalog, Session}
use backup_service.Migrations.Kept.{IsConsistent}
use backup_service.Services.{Services, Postgres, up, lost}
use backup_service.System.{http}
use backup_service.Telemetry.{Tracing}
use backup_service.Startup.{Environment, Process, main}
use backup_service.Startup.Refused.{IsStuck, main-IsStuck}
use backup_service.Startup.Sound.{IsSoundSession, main-IsSoundSession}
use backup_service.Tests.Broker.{new_broker}
use backup_service.Tests.Fixtures.{services, postgres, request}

abbrev empty_catalog : Catalog
empty_catalog = record { history = none; backups = none }

empty-IsConsistent : IsConsistent empty_catalog
empty-IsConsistent = record { clean = tt; made = λ e. cc }

-- The reply to the `INSERT` of the first run is lost.
abbrev unsteady : Postgres
unsteady = record postgres {
  attempt = λ n. record { link = if n == 3 then lost "reset" else up; now = n; uuid = 100 + n };
}

abbrev fresh : (pg : Postgres) → pg.Server → Session pg
fresh pg server = record { catalog = empty_catalog; server = server }

abbrev tracing : Tracing
tracing = record {
  filter = err "not set";
  build_exporter = λ endpoint. ok tt;
  shutdown = λ provider. ok tt;
  service_name_key = "service.name";
  service_version_key = "service.version";
  package_version = "0.1.0";
}

-- A request for a new backup, and the health of the service.
abbrev environment : (s : Services) → Environment s
environment s = record {
  var = λ name. none;
  parse_addr = λ text. ok text;
  tracing = tracing;
  open_client = λ url. ok tt;
  connection_manager = ok tt;
  install_recorder = ok tt;
  build_client = λ timeout. ok tt;
  bind = λ addr. ok tt;
  serve = ok tt;
  operations =
      http (protected (create (record { source_path = "/new"; encryption_enabled = true }))) request
      ∷ http (public health) request
      ∷ [];
  instant = 0;
  utc = 2000;
}

abbrev process : Process services
process = record { session = fresh postgres 0; redis = λ k. none; rabbit = new_broker; trace = [] }

main-IsSoundSession_example :
    IsSoundSession services (main services (environment services) process).1.session
main-IsSoundSession_example =
    main-IsSoundSession services (environment services) process
      (empty-IsConsistent, (record { statuses = tt; ids = tt }, tt))

-- A server that answers as PostgreSQL does.
abbrev refusing : Services
refusing = record services {
  postgres = record postgres {
    scripts = err "cannot insert multiple commands into a prepared statement";
  };
}

abbrev stuck : Process refusing
stuck = record {
  session = fresh refusing.postgres 0;
  redis = λ k. none;
  rabbit = new_broker;
  trace = [];
}

main-IsStuck_example :
    ((main refusing (environment refusing) stuck).0 ≡ ok tt → ⊥)
    × IsStuck refusing (main refusing (environment refusing) stuck).1
main-IsStuck_example =
    main-IsStuck refusing "cannot insert multiple commands into a prepared statement" refl
      (environment refusing) stuck (refl, tt)
