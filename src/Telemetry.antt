-- ===== src/Telemetry.antt =====
-- crates/backup-common/src/telemetry.rs: the set-up of tracing and its end. `log` lines go to what is
-- set up, and are left out.
use backup_service.Common.{String, Option, none, some, Result, ok, err, Bool, true, List, [], ◌∷◌}

-- The key and value of an attribute of the traces.
pub record KeyValue : Type 0 where
  pub key : String
  pub value : String

-- `TracerProvider`: where its batch exporter sends spans, and the attributes of its resource.
pub record TracerProvider : Type 0 where
  pub endpoint : String
  pub resource : List KeyValue

-- The layers of the subscriber.
pub data Layer : Type 0 where
  env_filter : (directives : String) → Layer
  fmt_layer : (target thread_ids : Bool) → Layer
  otel_layer : (tracer : String) → TracerProvider → Layer

-- The crates for tracing. `filter` is what `EnvFilter::try_from_default_env` makes of `RUST_LOG`;
-- the exporter is built or not; and a shutdown flushes the spans or fails.
pub record Tracing : Type 0 where
  pub filter : Result String String
  pub build_exporter : (endpoint : String) → Result (Unit {0}) String
  pub shutdown : TracerProvider → Result (Unit {0}) String
  pub service_name_key : String
  pub service_version_key : String
  pub package_version : String

module _ (t : Tracing) where
  unfoldable pub setup_otel_provider :
      (service_name endpoint : String) → Result TracerProvider String
  setup_otel_provider service_name endpoint = elim (t.build_exporter endpoint) [
    | err e ↦ err e
    | ok _ ↦ ok (record {
      endpoint = endpoint;
      resource =
          record { key = t.service_name_key; value = service_name }
          ∷ record { key = t.service_version_key; value = t.package_version }
          ∷ [];
    })
  ]

  abbrev filter_or_default : Result String String → String
  filter_or_default (ok directives) = directives
  filter_or_default (err e) = "info,tower_http=debug,sqlx=warn"

  -- The two layers that are always there.
  abbrev base_layers : List Layer
  base_layers = env_filter (filter_or_default t.filter) ∷ fmt_layer true true ∷ []

  abbrev layers_of : (service_name : String) → Result TracerProvider String → List Layer
  layers_of service_name (ok provider) =
      env_filter (filter_or_default t.filter)
      ∷ fmt_layer true true
      ∷ otel_layer service_name provider
      ∷ []
  layers_of service_name (err e) = base_layers

  abbrev provider_of : Result TracerProvider String → Option TracerProvider
  provider_of (ok provider) = some provider
  provider_of (err e) = none

  -- The provider and the subscriber that is installed; the last argument is the variable
  -- OTEL_EXPORTER_OTLP_ENDPOINT.
  unfoldable pub init_telemetry :
      (service_name : String) → Option String → Option TracerProvider × List Layer
  init_telemetry service_name none = (none, base_layers)
  init_telemetry service_name (some endpoint) =
      let provider = setup_otel_provider service_name endpoint in
      (provider_of provider, layers_of service_name provider)

  -- Whether spans were flushed: `none` where there was no provider.
  unfoldable pub shutdown_telemetry : Option TracerProvider → Option (Result (Unit {0}) String)
  shutdown_telemetry none = none
  shutdown_telemetry (some provider) = some (t.shutdown provider)
