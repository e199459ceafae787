-- ===== src/Cache.antt =====
-- crates/backup-service/src/cache.rs: the caching layer over Redis. A layer without a connection, or
-- made by `noop`, does nothing. Every failure of Redis or of the serialisation is a miss or is
-- ignored.
pub mod Invalidation
pub mod Keys
pub mod Stored
pub mod Ownership
use Prim.Native.String
use backup_service.Common.{
  ℕ, String, Bool, true, false, Option, none, some, List, Result, ok, err, if◌then◌else◌,
}
use backup_service.Common.Int.{ℤ}
use backup_service.Models.{Uuid, Backup}
use backup_service.Config.{AppConfig}
use backup_service.Services.{Redis, Json, Uuids}

abbrev pub default_cache_ttl_secs : ℕ
default_cache_ttl_secs = 300

-- The two options of `CacheLayer`: a connection, and the shared configuration.
pub record CacheLayer : Type 0 where
  pub redis : Bool
  pub config : Bool

abbrev pub noop : CacheLayer
noop = record { redis = false; config = false }

-- `CacheLayer::new`, by whether a connection was made.
abbrev pub new : Bool → CacheLayer
new connected = record { redis = connected; config = true }

unfoldable pub cache_ttl_secs : CacheLayer → AppConfig → ℕ
cache_ttl_secs cache config = if cache.config then config.cache_ttl_secs else default_cache_ttl_secs

module _ (r : Redis) (j : Json) (u : Uuids) where
  unfoldable pub backup_key : Uuid → String
  backup_key id = String.◌++◌ "backup:" (u.to_string id)

  unfoldable pub tenant_key : Uuid → String
  tenant_key tenant = String.◌++◌ "tenant_backups:" (u.to_string tenant)

  -- `.ok()?` of a reply, then of a parse
  abbrev parsed : {A : Type 0} → (String → Result A String) → Result String String → Option A
  parsed parse (err e) = none
  parsed parse (ok json) = elim (parse json) [ err e ↦ none | ok a ↦ some a ]

  abbrev fetch :
      {A : Type 0}
      → CacheLayer
      → String
      → (String → Result A String)
      → r.Server
      → Option A × r.Server
  fetch cache key parse server =
      if cache.redis
      then (let (reply, server') = r.get key server in (parsed parse reply, server'))
      else (none, server)

  abbrev set_ex_json : String → Result String String → ℕ → r.Server → r.Server
  set_ex_json key (err e) ttl server = server
  set_ex_json key (ok json) ttl server = (r.set_ex key json ttl server).1

  abbrev store :
      CacheLayer → AppConfig → String → Result String String → r.Server → Unit {0} × r.Server
  store cache config key json server =
      if cache.redis
      then (tt, set_ex_json key json (cache_ttl_secs cache config) server)
      else (tt, server)

  abbrev remove : CacheLayer → String → r.Server → Unit {0} × r.Server
  remove cache key server = if cache.redis then (tt, (r.del key server).1) else (tt, server)

  unfoldable pub ping : CacheLayer → r.Server → Bool × r.Server
  ping cache server =
      if cache.redis
      then (let (reply, server') = r.ping server in
          (elim reply [ ok _ ↦ true | err _ ↦ false ], server'))
      else (false, server)

  unfoldable pub get_backup : CacheLayer → Uuid → r.Server → Option Backup × r.Server
  get_backup cache id = fetch cache (backup_key id) j.backup_from_str

  unfoldable pub set_backup : CacheLayer → AppConfig → Backup → r.Server → Unit {0} × r.Server
  set_backup cache config b = store cache config (backup_key b.id) (j.backup_to_string b)

  unfoldable pub invalidate_backup : CacheLayer → Uuid → r.Server → Unit {0} × r.Server
  invalidate_backup cache id = remove cache (backup_key id)

  unfoldable pub get_tenant_backups :
      CacheLayer → Uuid → r.Server → Option (List Backup × ℤ) × r.Server
  get_tenant_backups cache tenant = fetch cache (tenant_key tenant) j.list_from_str

  unfoldable pub set_tenant_backups :
      CacheLayer → AppConfig → Uuid → List Backup → ℤ → r.Server → Unit {0} × r.Server
  set_tenant_backups cache config tenant items total =
      store cache config (tenant_key tenant) (j.list_to_string (items, total))

  unfoldable pub invalidate_tenant_backups : CacheLayer → Uuid → r.Server → Unit {0} × r.Server
  invalidate_tenant_backups cache tenant = remove cache (tenant_key tenant)
