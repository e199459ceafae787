-- ===== src/Tests/Unit/Merge.antt =====
-- The tests of crates/backup-service/src/apollo/merge.rs.
use text.Mathlib.Text.{◌==◌ as str_eq}
use backup_service.Common.{◌≡◌, refl, Bool, true, ◌&&◌, none, some, ◌==◌}
use backup_service.Common.Int.{pos, eqb_ℤ}
use backup_service.Config.{AppConfig}
use backup_service.Apollo.{RemoteConfigUpdate, no_update, apply_update}

abbrev base_config : AppConfig
base_config = record {
  database_url = "postgres://local";
  redis_url = "redis://local";
  amqp_url = "amqp://local";
  jwt_secret = "secret";
  listen_addr = "0.0.0.0:8080";
  grpc_addr = "0.0.0.0:50051";
  rate_limit = record { max_requests = 100; window_secs = 60 };
  cache_ttl_secs = 300;
  cached_list_limit = pos 20;
  cached_list_offset = pos 0;
  apollo_config_url = none;
  apollo_poll_interval_secs = 60;
  apollo_timeout_secs = 10;
}

abbrev partial_update : RemoteConfigUpdate
partial_update = record {
  rate_limit = some (record { max_requests = some 50; window_secs = none });
  cache_ttl_secs = some 600;
  cached_list_limit = none;
  cached_list_offset = some (pos 10);
}

abbrev merge_only_set_fields : Bool
merge_only_set_fields =
    let config = apply_update base_config partial_update in
    (config.rate_limit.max_requests == 50)
    && (config.rate_limit.window_secs == 60)
    && (config.cache_ttl_secs == 600)
    && eqb_ℤ config.cached_list_limit (pos 20)
    && eqb_ℤ config.cached_list_offset (pos 10)
    && str_eq config.database_url "postgres://local"
    && str_eq config.jwt_secret "secret"

abbrev merge_empty_update_changes_nothing : Bool
merge_empty_update_changes_nothing =
    let config = apply_update base_config no_update in
    (config.rate_limit.max_requests == base_config.rate_limit.max_requests)
    && (config.cache_ttl_secs == base_config.cache_ttl_secs)
    && eqb_ℤ config.cached_list_limit base_config.cached_list_limit

abbrev both_limits : RemoteConfigUpdate
both_limits = record no_update {
  rate_limit = some (record { max_requests = some 200; window_secs = some 120 });
}

abbrev merge_rate_limit_both_fields : Bool
merge_rate_limit_both_fields =
    let config = apply_update base_config both_limits in
    (config.rate_limit.max_requests == 200) && (config.rate_limit.window_secs == 120)

merge-passes :
    merge_only_set_fields && merge_empty_update_changes_nothing && merge_rate_limit_both_fields
    ≡ true
unfolding apply_update
merge-passes = refl
