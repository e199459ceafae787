-- ===== src/State.antt =====
-- crates/backup-service/src/state.rs: `AppState`, with what its handles refer to.
pub mod Access
use backup_service.Common.{ℕ, Bool, String, ok, map_err, Exec}
use backup_service.Config.{AppConfig}
use backup_service.RateLimit.{Counters}
use backup_service.Services.{Services}
use backup_service.Sql.{Statement}
use backup_service.Db.{Db, execute}
use backup_service.Cache.{CacheLayer}

-- The pool, the cache, the configuration behind its lock, the rate limiter's counters and the AMQP
-- channel, if there is one. The lock of the configuration is never poisoned: no writer panics.
-- `instant` and `utc` are what `Instant::now` and `Utc::now` answer, the latter in seconds, and the
-- last two are the metric `backup_jobs_processed_total` at its two labels.
pub record AppState (s : Services) : Type 0 where
  pub db : Db s.postgres
  pub redis : s.redis.Server
  pub cache : CacheLayer
  pub config : AppConfig
  pub rate_limiter : Counters
  pub amqp_channel : Bool
  pub rabbit : s.rabbit.Server
  pub instant : ℕ
  pub utc : ℕ
  pub jobs_succeeded : ℕ
  pub jobs_failed : ℕ

module _ (s : Services) {E A : Type 0} where
  -- A statement on `state.db`; `f` is what `?` or `map_err` makes of an `sqlx::Error`.
  unfoldable pub query : (String → E) → Statement A → Exec (AppState s) E A
  query f st w = let (r, db) = execute s.postgres st w.db in (map_err f r, record w { db = db })

  -- A call of `state.cache`, which cannot fail.
  unfoldable pub cached :
      (CacheLayer → AppConfig → s.redis.Server → A × s.redis.Server) → Exec (AppState s) E A
  cached f w = let (a, server) = f w.cache w.config w.redis in (ok a, record w { redis = server })

  -- `with_config_mut`
  unfoldable pub with_config_mut : (AppConfig → A × AppConfig) → Exec (AppState s) E A
  with_config_mut f w = let (a, config) = f w.config in (ok a, record w { config = config })
