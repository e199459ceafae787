-- ===== src/Backups.antt =====
-- crates/backup-service/src/handlers/backups.rs: the handlers for backups. Each takes the claims that
-- the middleware put into the request, and what the extractors read. Logging is left out.
pub mod CacheSteps
pub mod Confidential
pub mod Contract
pub mod Deleted
pub mod Freshness
pub mod History
pub mod Integrity
pub mod Listing
pub mod Pages
pub mod Race
pub mod Refinement
pub mod Rules
use Prim.Native.String
use backup_service.Common.{
  ℕ, String, Bool, true, false, ◌&&◌, Option, none, some, List, map, Result, ok, err, map_err, Exec,
  pure, raise, lift, gets, ◌>>=◌, ◌>>◌, ◌==◌, if◌then◌else◌, first,
}
use backup_service.Common.Int.{ℤ, pos, clamp, max_ℤ, eqb_ℤ}
use backup_service.Common.Bytes.{bytes, cycle_take}
use backup_service.Models.{
  Uuid, fmt, Backup, CreateBackupRequest, UpdateBackupRequest, BackupResponse, from_backup,
  ListParams, ListResponse, Claims,
}
use backup_service.Errors.{AppError, not_found, database, internal}
use backup_service.Errors.StatusCode
use backup_service.Config.{AppConfig}
use backup_service.Entropy.{shannon_entropy}
use backup_service.Jobs.{BackupJob}
use backup_service.Jobs.Publish.{publish_job}
use backup_service.Services.{Services}
use backup_service.Sql
use backup_service.Cache
use backup_service.State.{AppState, query, cached}
use backup_service.SourcePath.{validate_source_path}

abbrev pub is_none : {A : Type 0} → Option A → Bool
is_none none = true
is_none (some _) = false

-- `opt.map(f)`
abbrev pub map_option : {A B : Type 0} → (A → B) → Option A → Option B
map_option f none = none
map_option f (some a) = some (f a)

-- `if let Some(cached) = … && cached.tenant_id == tenant`
abbrev pub owned : Uuid → Option Backup → Option Backup
owned tenant none = none
owned tenant (some b) = if b.tenant_id == tenant then some b else none

module _ (s : Services) where
  abbrev pub Handler : Type 0 → Type 0
  Handler A = Exec (AppState s) AppError A

  abbrev pub Response : Type 0
  Response = BackupResponse s.floats.F64

  -- `.ok_or_else(…)?`
  unfoldable pub ok_or : {A : Type 0} → Option A → AppError → Handler A
  ok_or none e = raise e
  ok_or (some a) e = pure a

  -- An answer at hand is returned early; the rest of the handler runs if there is none.
  unfoldable pub or_else : {A : Type 0} → Option A → Handler A → Handler A
  or_else none rest = rest
  or_else (some a) rest = pure a

  abbrev pub backup_not_found : Uuid → AppError
  backup_not_found id = not_found (String.◌++◌ "backup " (s.uuids.to_string id))

  -- The cache's methods on the state.
  abbrev pub cache_get : Uuid → Handler (Option Backup)
  cache_get id = cached s (λ c _. Cache.get_backup s.redis s.json s.uuids c id)

  abbrev pub cache_set : Backup → Handler (Unit {0})
  cache_set b = cached s (λ c config. Cache.set_backup s.redis s.json s.uuids c config b)

  abbrev pub cache_drop : Uuid → Handler (Unit {0})
  cache_drop id = cached s (λ c _. Cache.invalidate_backup s.redis s.json s.uuids c id)

  abbrev pub list_get : Uuid → Handler (Option (List Backup × ℤ))
  list_get tenant = cached s (λ c _. Cache.get_tenant_backups s.redis s.json s.uuids c tenant)

  abbrev pub list_set : Uuid → List Backup → ℤ → Handler (Unit {0})
  list_set tenant items total =
      cached s
        (λ c config. Cache.set_tenant_backups s.redis s.json s.uuids c config tenant items total)

  abbrev pub list_drop : Uuid → Handler (Unit {0})
  list_drop tenant =
      cached s (λ c _. Cache.invalidate_tenant_backups s.redis s.json s.uuids c tenant)

  unfoldable pub create_backup : Claims → CreateBackupRequest → Handler (ℕ × Response)
  create_backup claims req = do
    lift (validate_source_path req.source_path)
    backup ←
        query s database
          (Sql.insert_backup s.postgres claims.tenant_id req.source_path req.encryption_enabled)
    list_drop claims.tenant_id
    pure (StatusCode.created, from_backup backup)

  -- The row of an id and a tenant, or the error of a missing one.
  unfoldable pub select_or_not_found : Uuid → Uuid → Handler Backup
  select_or_not_found id tenant = do
    row ← query s database (Sql.select_backup s.postgres id tenant)
    ok_or row (backup_not_found id)

  unfoldable pub get_from_db : Uuid → Uuid → Handler Response
  get_from_db id tenant = do
    backup ← select_or_not_found id tenant
    cache_set backup
    pure (from_backup backup)

  unfoldable pub get_backup : Claims → Uuid → Handler Response
  get_backup claims id = do
    hit ← cache_get id
    or_else (map_option from_backup (owned claims.tenant_id hit)) (get_from_db id claims.tenant_id)

  abbrev pub page_limit : ListParams → ℤ
  page_limit params = clamp params.limit (pos 1) (pos 100)

  abbrev pub page_offset : ListParams → ℤ
  page_offset params = max_ℤ params.offset (pos 0)

  abbrev pub uses_list_cache : ListParams → AppConfig → Bool
  uses_list_cache params config =
      is_none params.status
      && eqb_ℤ (page_offset params) config.cached_list_offset
      && eqb_ℤ (page_limit params) config.cached_list_limit

  abbrev pub list_response : ListParams → List Backup × ℤ → ListResponse Response
  list_response params found = record {
    items = map from_backup found.0;
    total = found.1;
    offset = page_offset params;
    limit = page_limit params;
  }

  unfoldable pub list_from_db : Claims → ListParams → Bool → Handler (ListResponse Response)
  list_from_db claims params use_list_cache = do
    backups ← query s database (
        Sql.select_page s.postgres claims.tenant_id params.status (page_limit params)
          (page_offset params))
    total ← query s database (Sql.select_count s.postgres claims.tenant_id params.status)
    if use_list_cache then list_set claims.tenant_id backups total else pure tt
    pure (list_response params (backups, total))

  unfoldable pub list_backups : Claims → ListParams → Handler (ListResponse Response)
  list_backups claims params = do
    config ← gets (λ w. w.config)
    let use_list_cache = uses_list_cache params config
    hit ← if use_list_cache then list_get claims.tenant_id else pure none
    or_else (map_option (list_response params) hit) (list_from_db claims params use_list_cache)

  unfoldable pub update_backup : Claims → Uuid → UpdateBackupRequest → Handler Response
  update_backup claims id req = do
    rows ← query s database (
        Sql.update_backup s.postgres id claims.tenant_id (map_option fmt req.status) req.size_bytes)
    backup ← ok_or (first rows) (backup_not_found id)
    cache_drop id
    list_drop claims.tenant_id
    pure (from_backup backup)

  unfoldable pub delete_backup : Claims → Uuid → Handler ℕ
  delete_backup claims id = do
    rows_affected ← query s database (Sql.delete_backup s.postgres id claims.tenant_id)
    if rows_affected == 0 then raise (backup_not_found id) else pure tt
    cache_drop id
    list_drop claims.tenant_id
    pure StatusCode.no_content

  -- How the blocking task ends that computes the entropy: it may fail to be joined.
  abbrev pub Joined : Type 0
  Joined = Result (Unit {0}) String

  unfoldable pub join : {A : Type 0} → Joined → (String → AppError) → A → Handler A
  join (ok _) f a = pure a
  join (err e) f a = raise (f e)

  unfoldable pub analyze_backup : Claims → Uuid → Joined → Handler Response
  analyze_backup claims id joined = do
    backup ← select_or_not_found id claims.tenant_id
    let synthetic_data = cycle_take 4096 (bytes backup.source_path)
    entropy ←
        join joined (λ e. internal (String.◌++◌ "task join error: " e))
          (shannon_entropy s.floats synthetic_data)
    let resp = from_backup backup
    pure (record resp { entropy = some entropy })

  -- A call on the channel, which `map_err` turns into an internal error.
  unfoldable pub publish : BackupJob → Handler (Unit {0})
  publish job w =
      let (r, server) = publish_job s.rabbit s.json job w.rabbit in
      (
        map_err (λ e. internal (String.◌++◌ "failed to enqueue job: " e)) r,
        record w { rabbit = server },
      )

  -- The answer is the status and the `backup_id` beside the message "backup job enqueued".
  unfoldable pub enqueue_backup : Claims → Uuid → Handler (ℕ × Uuid)
  enqueue_backup claims id = do
    backup ← select_or_not_found id claims.tenant_id
    channel ← gets (λ w. w.amqp_channel)
    if channel then pure tt else raise (internal "RabbitMQ not configured")
    publish (record {
      backup_id = backup.id;
      tenant_id = backup.tenant_id;
      source_path = backup.source_path;
      encryption_enabled = backup.encryption_enabled;
    })
    pure (StatusCode.accepted, id)
