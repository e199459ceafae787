-- ===== src/Config/Ranges.antt =====
-- config.rs: every configuration read from the environment fits its types.
use backup_service.Common.{◌^◌, ◌<◌, ◌≢◌, some}
use backup_service.Common.Decimal.{IsI64}
use backup_service.Config.{AppConfig}

-- What the machine types of the fields allow, and that an Apollo URL is not empty.
pub record IsInRange (c : AppConfig) : Type 0 where
  pub max_requests : c.rate_limit.max_requests < 2 ^ 64
  pub window_secs : c.rate_limit.window_secs < 2 ^ 64
  pub cache_ttl_secs : c.cache_ttl_secs < 2 ^ 64
  pub cached_list_limit : IsI64 c.cached_list_limit
  pub cached_list_offset : IsI64 c.cached_list_offset
  pub apollo_config_url : c.apollo_config_url ≢ some ""
  pub apollo_poll_interval_secs : c.apollo_poll_interval_secs < 2 ^ 64
  pub apollo_timeout_secs : c.apollo_timeout_secs < 2 ^ 64
