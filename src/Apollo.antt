-- ===== src/Apollo.antt =====
-- crates/backup-service/src/apollo/: the remote configuration and its merge.
pub mod Fetch
pub mod Merge
use backup_service.Common.{
  ℕ, Option, none, some, Result, ok, err, List, [], ◌∷◌, Bool, true, false, unwrap_or, String,
}
use backup_service.Common.Int.{ℤ}
use backup_service.RateLimit.{RateLimitConfig}
use backup_service.Config.{AppConfig, non_empty}

pub record RateLimitUpdate : Type 0 where
  pub max_requests : Option ℕ
  pub window_secs : Option ℕ

pub record RemoteConfigUpdate : Type 0 where
  pub rate_limit : Option RateLimitUpdate
  pub cache_ttl_secs : Option ℕ
  pub cached_list_limit : Option ℤ
  pub cached_list_offset : Option ℤ

-- `RemoteConfigUpdate::default`, and the reading of `{}`
abbrev pub no_update : RemoteConfigUpdate
no_update = record {
  rate_limit = none;
  cache_ttl_secs = none;
  cached_list_limit = none;
  cached_list_offset = none;
}

-- The assignments of one `if let` each.
abbrev set_max_requests : Option ℕ → AppConfig → AppConfig
set_max_requests none config = config
set_max_requests (some v) config = record config {
  rate_limit = record config.rate_limit { max_requests = v };
}

abbrev set_window_secs : Option ℕ → AppConfig → AppConfig
set_window_secs none config = config
set_window_secs (some v) config = record config {
  rate_limit = record config.rate_limit { window_secs = v };
}

abbrev set_rate_limit : Option RateLimitUpdate → AppConfig → AppConfig
set_rate_limit none config = config
set_rate_limit (some rl) config =
    set_window_secs rl.window_secs (set_max_requests rl.max_requests config)

abbrev set_cache_ttl_secs : Option ℕ → AppConfig → AppConfig
set_cache_ttl_secs none config = config
set_cache_ttl_secs (some v) config = record config { cache_ttl_secs = v }

abbrev set_cached_list_limit : Option ℤ → AppConfig → AppConfig
set_cached_list_limit none config = config
set_cached_list_limit (some v) config = record config { cached_list_limit = v }

abbrev set_cached_list_offset : Option ℤ → AppConfig → AppConfig
set_cached_list_offset none config = config
set_cached_list_offset (some v) config = record config { cached_list_offset = v }

unfoldable pub apply_update : AppConfig → RemoteConfigUpdate → AppConfig
apply_update config update = set_cached_list_offset update.cached_list_offset (
    set_cached_list_limit update.cached_list_limit
      (set_cache_ttl_secs update.cache_ttl_secs (set_rate_limit update.rate_limit config)))

-- `ApolloUpdaterConfig`, the times in seconds.
pub record ApolloUpdaterConfig : Type 0 where
  pub url : String
  pub interval : ℕ
  pub timeout : ℕ

-- `run_one_update`: what `fetch_config` returned, merged into the configuration or dropped.
unfoldable pub run_one_update : Result RemoteConfigUpdate String → AppConfig → Bool × AppConfig
run_one_update (ok update) config = (true, apply_update config update)
run_one_update (err e) config = (false, config)

-- `run_updater_loop` over the results that its fetches have so far.
unfoldable pub run_updater_loop : List (Result RemoteConfigUpdate String) → AppConfig → AppConfig
run_updater_loop [] config = config
run_updater_loop (ok update ∷ rest) config = run_updater_loop rest (apply_update config update)
run_updater_loop (err e ∷ rest) config = run_updater_loop rest config
