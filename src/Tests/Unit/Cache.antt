-- ===== src/Tests/Unit/Cache.antt =====
-- The tests of crates/backup-service/src/cache.rs.
use backup_service.Common.{
  ◌≡◌, refl, Bool, true, false, not, ◌&&◌, Option, none, some, List, [], ◌∷◌, String, ◌==◌, length,
  ok, if◌then◌else◌,
}
use backup_service.Common.Int.{ℤ, pos, eqb_ℤ}
use backup_service.Models.{Uuid, Backup}
use backup_service.Config.{AppConfig}
use backup_service.RateLimit
use backup_service.Services.{Redis, Json, Uuids}
use backup_service.Cache
use backup_service.Cache.{CacheLayer, noop}
use backup_service.Backups.{is_none}
use backup_service.Tests.Fixtures.{redis, json, uuids, row, unary}

abbrev is_some : {A : Type 0} → Option A → Bool
is_some o = not (is_none o)

-- The time of the clock is 0.
abbrev sample_backup : Uuid → Uuid → Backup
sample_backup id tenant_id = record {
  id = id;
  tenant_id = tenant_id;
  source_path = "/data";
  size_bytes = pos 0;
  status = "pending";
  encryption_enabled = false;
  created_at = 0;
  updated_at = 0;
}

abbrev test_config : String → AppConfig
test_config url = record {
  database_url = "";
  redis_url = url;
  amqp_url = "";
  jwt_secret = "";
  listen_addr = "0.0.0.0:0";
  grpc_addr = "0.0.0.0:0";
  rate_limit = RateLimit.default;
  cache_ttl_secs = 300;
  cached_list_limit = pos 20;
  cached_list_offset = pos 0;
  apollo_config_url = none;
  apollo_poll_interval_secs = 60;
  apollo_timeout_secs = 10;
}

module _ (r : Redis) (j : Json) (u : Uuids) where
  abbrev noop_get_backup_returns_none : r.Server → Bool
  noop_get_backup_returns_none server = is_none (Cache.get_backup r j u noop 0 server).0

  abbrev noop_get_tenant_backups_returns_none : r.Server → Bool
  noop_get_tenant_backups_returns_none server =
      is_none (Cache.get_tenant_backups r j u noop 0 server).0

  abbrev noop_ping_returns_false : r.Server → Bool
  noop_ping_returns_false server = not (Cache.ping r j u noop server).0

  -- The server after the calls.
  abbrev noop_set_and_invalidate_dont_panic : AppConfig → r.Server → r.Server
  noop_set_and_invalidate_dont_panic config server =
      let backup = sample_backup 0 0 in
      let server1 = (Cache.set_backup r j u noop config backup server).1 in
      let server2 =
        (Cache.set_tenant_backups r j u noop config 0 (backup ∷ []) (pos 1) server1).1 in
      let server3 = (Cache.invalidate_backup r j u noop backup.id server2).1 in
      (Cache.invalidate_tenant_backups r j u noop backup.tenant_id server3).1

  -- Without a connection each call leaves the server alone, whatever it is.
  noop-still :
      (config : AppConfig) (server : r.Server)
      → (noop_get_backup_returns_none server ≡ true)
        × (noop_get_tenant_backups_returns_none server ≡ true)
        × (noop_ping_returns_false server ≡ true)
        × (noop_set_and_invalidate_dont_panic config server ≡ server)
  unfolding Cache.get_backup Cache.get_tenant_backups Cache.ping Cache.set_backup
      Cache.set_tenant_backups Cache.invalidate_backup Cache.invalidate_tenant_backups
  noop-still config server = (refl, refl, refl, refl)

  abbrev head_id : List Backup → Option Uuid
  head_id [] = none
  head_id (b ∷ rest) = some b.id

  abbrev has_id : Uuid → Option Uuid → Bool
  has_id id none = false
  has_id id (some found) = found == id

  abbrev one_of : Uuid → Option (List Backup × ℤ) → Bool
  one_of id none = false
  one_of id (some (items, total)) =
      (length items == 1) && has_id id (head_id items) && eqb_ℤ total (pos 1)

  abbrev id_of : Option Backup → Option Uuid
  id_of none = none
  id_of (some b) = some b.id

  -- The test is over where Redis does not answer a ping.
  abbrev redis_roundtrip_when_available : String → Backup → r.Server → Bool
  redis_roundtrip_when_available url backup server =
      let config = test_config url in
      let cache = Cache.new true in
      let (available, server1) = Cache.ping r j u cache server in
      let server2 = (Cache.set_backup r j u cache config backup server1).1 in
      let (got, server3) = Cache.get_backup r j u cache backup.id server2 in
      let server4 = (Cache.invalidate_backup r j u cache backup.id server3).1 in
      let (dropped, server5) = Cache.get_backup r j u cache backup.id server4 in
      let server6 =
        (Cache.set_tenant_backups r j u cache config backup.tenant_id (backup ∷ []) (pos 1)
          server5).1 in
      let (found, server7) = Cache.get_tenant_backups r j u cache backup.tenant_id server6 in
      let server8 = (Cache.invalidate_tenant_backups r j u cache backup.tenant_id server7).1 in
      let gone = (Cache.get_tenant_backups r j u cache backup.tenant_id server8).0 in
      if available
      then has_id backup.id (id_of got) && is_none dropped && one_of backup.id found && is_none gone
      else true

-- A codec that knows one row and one page.
abbrev one_row : Json
one_row = record json {
  backup_to_string = λ b. ok "row";
  backup_from_str = λ text. ok row;
  list_to_string = λ l. ok "page";
  list_from_str = λ text. ok (row ∷ [], pos 1);
}

redis_roundtrip-passes :
    redis_roundtrip_when_available redis one_row uuids "redis://127.0.0.1:6379" row (λ k. none)
    ≡ true
unfolding Cache.ping Cache.set_backup Cache.get_backup Cache.invalidate_backup
    Cache.set_tenant_backups Cache.get_tenant_backups Cache.invalidate_tenant_backups
    Cache.backup_key Cache.tenant_key unary
redis_roundtrip-passes = refl
