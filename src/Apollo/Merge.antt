-- ===== src/Apollo/Merge.antt =====
-- apollo/merge.rs and apollo/fetch.rs: updates act on the configuration, and touch only what they may.
use backup_service.Common.{
  ℕ, ◌≡◌, refl, ◌∙◌, String, Option, none, some, Result, ok, err, List, [], ◌∷◌, arith, unwrap_or,
}
use backup_service.Common.Int.{ℤ}
use backup_service.Config.{AppConfig}
use backup_service.Apollo.{
  RateLimitUpdate, RemoteConfigUpdate, no_update, apply_update, run_updater_loop, set_max_requests,
  set_window_secs, set_rate_limit, set_cache_ttl_secs, set_cached_list_limit,
  set_cached_list_offset,
}

-- The fields that no update reaches.
record SameFixed (c d : AppConfig) : Type 0 where
  pub database_url : c.database_url ≡ d.database_url
  pub redis_url : c.redis_url ≡ d.redis_url
  pub amqp_url : c.amqp_url ≡ d.amqp_url
  pub jwt_secret : c.jwt_secret ≡ d.jwt_secret
  pub listen_addr : c.listen_addr ≡ d.listen_addr
  pub grpc_addr : c.grpc_addr ≡ d.grpc_addr
  pub apollo_config_url : c.apollo_config_url ≡ d.apollo_config_url
  pub apollo_poll_interval_secs : c.apollo_poll_interval_secs ≡ d.apollo_poll_interval_secs
  pub apollo_timeout_secs : c.apollo_timeout_secs ≡ d.apollo_timeout_secs

apply_update-SameFixed : (c : AppConfig) (u : RemoteConfigUpdate) → SameFixed (apply_update c u) c
unfolding apply_update
apply_update-SameFixed c u = ground arith

-- The later of two values where both are present.
abbrev pub or_else {ℓ} : {A : Type ℓ} → Option A → Option A → Option A
or_else none d = d
or_else (some a) d = some a

abbrev pub max_of : Option RateLimitUpdate → Option ℕ
max_of none = none
max_of (some rl) = rl.max_requests

abbrev pub window_of : Option RateLimitUpdate → Option ℕ
window_of none = none
window_of (some rl) = rl.window_secs

-- One update for two in a row.
pub then_update : RemoteConfigUpdate → RemoteConfigUpdate → RemoteConfigUpdate
then_update u v = record {
  rate_limit = some (record {
    max_requests = or_else (max_of v.rate_limit) (max_of u.rate_limit);
    window_secs = or_else (window_of v.rate_limit) (window_of u.rate_limit);
  });
  cache_ttl_secs = or_else v.cache_ttl_secs u.cache_ttl_secs;
  cached_list_limit = or_else v.cached_list_limit u.cached_list_limit;
  cached_list_offset = or_else v.cached_list_offset u.cached_list_offset;
}

-- The configuration that an update leaves, field by field.
updated : AppConfig → RemoteConfigUpdate → AppConfig
updated c u = record c {
  rate_limit = record {
    max_requests = unwrap_or (max_of u.rate_limit) c.rate_limit.max_requests;
    window_secs = unwrap_or (window_of u.rate_limit) c.rate_limit.window_secs;
  };
  cache_ttl_secs = unwrap_or u.cache_ttl_secs c.cache_ttl_secs;
  cached_list_limit = unwrap_or u.cached_list_limit c.cached_list_limit;
  cached_list_offset = unwrap_or u.cached_list_offset c.cached_list_offset;
}

set_rate_limit_lem :
    (o : Option RateLimitUpdate) (c : AppConfig)
    → set_rate_limit o c ≡ record c {
      rate_limit = record {
        max_requests = unwrap_or (max_of o) c.rate_limit.max_requests;
        window_secs = unwrap_or (window_of o) c.rate_limit.window_secs;
      };
    }
set_rate_limit_lem none c = refl
set_rate_limit_lem (some rl) c = go rl.max_requests rl.window_secs
  where
    go :
        (m w : Option ℕ)
        → set_window_secs w (set_max_requests m c) ≡ record c {
          rate_limit = record {
            max_requests = unwrap_or m c.rate_limit.max_requests;
            window_secs = unwrap_or w c.rate_limit.window_secs;
          };
        }
    go none none = refl
    go none (some w) = refl
    go (some m) none = refl
    go (some m) (some w) = refl

set_cache_lem :
    (ttl : Option ℕ) (limit offset : Option ℤ) (c : AppConfig)
    → set_cached_list_offset offset (set_cached_list_limit limit (set_cache_ttl_secs ttl c))
      ≡ record c {
        cache_ttl_secs = unwrap_or ttl c.cache_ttl_secs;
        cached_list_limit = unwrap_or limit c.cached_list_limit;
        cached_list_offset = unwrap_or offset c.cached_list_offset;
      }
set_cache_lem none none none c = refl
set_cache_lem none none (some o) c = refl
set_cache_lem none (some l) none c = refl
set_cache_lem none (some l) (some o) c = refl
set_cache_lem (some t) none none c = refl
set_cache_lem (some t) none (some o) c = refl
set_cache_lem (some t) (some l) none c = refl
set_cache_lem (some t) (some l) (some o) c = refl

apply_update_lem : (c : AppConfig) (u : RemoteConfigUpdate) → apply_update c u ≡ updated c u
unfolding apply_update updated
apply_update_lem c u = rw (set_rate_limit_lem, set_cache_lem)

or_else_lem {ℓ} :
    {A : Type ℓ} (o p : Option A) (d : A) → unwrap_or o (unwrap_or p d) ≡ unwrap_or (or_else o p) d
or_else_lem none p d = refl
or_else_lem (some a) p d = refl

updated-then_update :
    (c : AppConfig) (u v : RemoteConfigUpdate)
    → updated (updated c u) v ≡ updated c (then_update u v)
unfolding updated then_update
updated-then_update c u v = simp or_else_lem

apply_update-then_update :
    (c : AppConfig) (u v : RemoteConfigUpdate)
    → apply_update (apply_update c u) v ≡ apply_update c (then_update u v)
apply_update-then_update c u v =
    rw (apply_update_lem, apply_update_lem, apply_update_lem) (updated-then_update c u v)

-- All the updates of a run that were fetched, as one.
pub merged : List (Result RemoteConfigUpdate String) → RemoteConfigUpdate
merged [] = no_update
merged (ok u ∷ rest) = then_update u (merged rest)
merged (err e ∷ rest) = merged rest

-- A run of the updater over any fetches equals the application of one update, in which each field
-- has the last value that a successful fetch gave it; failed fetches change nothing.
pub run_updater_loop-merged :
    (results : List (Result RemoteConfigUpdate String)) (c : AppConfig)
    → run_updater_loop results c ≡ apply_update c (merged results)
unfolding run_updater_loop merged
run_updater_loop-merged [] c = unfold apply_update in refl
run_updater_loop-merged (ok u ∷ rest) c =
    run_updater_loop-merged rest (apply_update c u) ∙ apply_update-then_update c u (merged rest)
run_updater_loop-merged (err e ∷ rest) c = run_updater_loop-merged rest c

-- No run of the updater changes the URLs, the JWT secret, the listen addresses or the updater's own
-- settings.
run_updater_loop-SameFixed :
    (results : List (Result RemoteConfigUpdate String)) (c : AppConfig)
    → SameFixed (run_updater_loop results c) c
run_updater_loop-SameFixed results c =
    rw run_updater_loop-merged (apply_update-SameFixed c (merged results))
