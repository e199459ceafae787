-- ===== src/Backups/Confidential.antt =====
-- handlers/backups.rs: what a handler returns is of the tenant in the claims, though the answer may
-- come from a cache that all tenants share.
use backup_service.Common.{Bool, Option, none, some, List, All, first}
use backup_service.Common.Int.{ℤ}
use backup_service.Common.Outcome.Yields.{
  Yields, Yields-pure, Yields-raise, Yields-lift, Yields-gets, Yields-if, Yields-bind,
}
use backup_service.Models.{
  Uuid, Backup, BackupResponse, fmt, CreateBackupRequest, UpdateBackupRequest, ListParams,
  ListResponse, Claims,
}
use backup_service.Errors.{database}
use backup_service.Services.{Services}
use backup_service.Services.Laws.{IsRedis, IsJson, IsUuids, IsPostgres}
use backup_service.SourcePath.{validate_source_path}
use backup_service.Sql.Answers.{
  OnSome, OnSome-first, insert_backup-Answers, select_backup-Answers, select_page-Answers,
  update_backup-Answers,
}
use backup_service.Cache.Ownership.{BelongsTo}
use backup_service.Backups
use backup_service.Backups.Rules.{
  CacheIsOwn, Yields-query, Yields-ok_or, Yields-or_else, Yields-join, Yields-publish, anything,
}
use backup_service.Backups.{
  Handler, Joined, map_option, owned, ok_or, or_else, select_or_not_found, get_from_db,
  list_from_db, list_response, cache_get, cache_set, cache_drop, list_get, list_set, list_drop,
}
use backup_service.Backups.CacheSteps.{
  OfTenant, from_backup-OfTenant, map-from_backup, owned-OfTenant, Yields-cache_get,
  Yields-cache_set, Yields-cache_drop, Yields-list_drop, Yields-list_set, Yields-list_get,
}

module _ (s : Services) (redis : IsRedis s.redis) (json : IsJson s.json) (uuids : IsUuids s.uuids)
    (postgres : IsPostgres s.postgres) (claims : Claims) where
  abbrev tenant : Uuid
  tenant = claims.tenant_id

  pub create_backup-Yields :
      (req : CreateBackupRequest)
      → Yields CacheIsOwn (λ r. OfTenant s tenant r.1) (Backups.create_backup s claims req)
  unfolding Backups.create_backup
  create_backup-Yields req =
      Yields-bind _ _ _ _ (Yields-lift (validate_source_path req.source_path)) (λ _ _.
        Yields-bind _ _ _ _
          (Yields-query (BelongsTo tenant) database _
            (insert_backup-Answers tenant s.postgres req.source_path req.encryption_enabled))
          (λ b own.
            Yields-bind _ _ _ _ (Yields-list_drop s redis json uuids claims)
              (λ _ _. Yields-pure _ _ (from_backup-OfTenant s tenant b own))))

  select_or_not_found-Yields :
      (id : Uuid) → Yields CacheIsOwn (BelongsTo tenant) (select_or_not_found s id tenant)
  unfolding select_or_not_found
  select_or_not_found-Yields id =
      Yields-bind _ _ _ _
        (Yields-query (OnSome (BelongsTo tenant)) database _
          (select_backup-Answers tenant s.postgres id))
        (λ row own. Yields-ok_or (BelongsTo tenant) row _ own)

  pub get_backup-Yields :
      (id : Uuid) → Yields CacheIsOwn (OfTenant s tenant) (Backups.get_backup s claims id)
  unfolding Backups.get_backup get_from_db
  get_backup-Yields id =
      Yields-bind _ _ _ _ (Yields-cache_get s redis json uuids claims id) (λ hit _.
        Yields-or_else _ _ _ (owned-OfTenant s tenant hit) (
          Yields-bind _ _ _ _ (select_or_not_found-Yields id) (λ b own.
            Yields-bind _ _ _ _ (Yields-cache_set s redis json uuids claims b)
              (λ _ _. Yields-pure _ _ (from_backup-OfTenant s tenant b own)))))

  pub update_backup-Yields :
      (id : Uuid) (req : UpdateBackupRequest)
      → Yields CacheIsOwn (OfTenant s tenant) (Backups.update_backup s claims id req)
  unfolding Backups.update_backup
  update_backup-Yields id req =
      Yields-bind _ _ _ _
        (Yields-query (All (BelongsTo tenant)) database _
          (update_backup-Answers tenant s.postgres id (map_option fmt req.status) req.size_bytes))
        (λ rows all.
          Yields-bind _ _ _ _
            (Yields-ok_or (BelongsTo tenant) (first rows) _
              (OnSome-first (BelongsTo tenant) rows all))
            (λ b own. Yields-bind _ _ _ _ (Yields-cache_drop s redis json uuids claims id) (λ _ _.
              Yields-bind _ _ _ _ (Yields-list_drop s redis json uuids claims)
                (λ _ _. Yields-pure _ _ (from_backup-OfTenant s tenant b own)))))

  -- A page holds backups of the tenant alone.
  abbrev pub PageOf : ListResponse (BackupResponse s.floats.F64) → Type 0
  PageOf page = All (OfTenant s tenant) page.items

  list_response-PageOf :
      (params : ListParams) (o : Option (List Backup × ℤ))
      → OnSome (λ r. All (BelongsTo tenant) r.0) o
      → OnSome PageOf (map_option (list_response s params) o)
  list_response-PageOf params none h = tt
  list_response-PageOf params (some r) h = map-from_backup s tenant r.0 h

  list_from_db-Yields :
      (params : ListParams) (use_cache : Bool)
      → Yields CacheIsOwn PageOf (list_from_db s claims params use_cache)
  unfolding list_from_db
  list_from_db-Yields params use_cache =
      Yields-bind _ _ _ _
        (Yields-query (All (BelongsTo tenant)) database _
          (select_page-Answers tenant s.postgres postgres params.status _ _))
        (λ items own. Yields-bind _ _ _ _ (Yields-query (λ _. Unit) database _ anything) (λ total _.
          Yields-bind _ _ _ _
            (Yields-if (λ _. Unit) use_cache _ _
              (Yields-list_set s redis json uuids claims items total own)
              (Yields-pure (λ _. Unit) tt tt))
            (λ _ _. Yields-pure _ _ (map-from_backup s tenant items own))))

  pub list_backups-Yields :
      (params : ListParams) → Yields CacheIsOwn PageOf (Backups.list_backups s claims params)
  unfolding Backups.list_backups
  list_backups-Yields params = Yields-bind _ _ _ _ (Yields-gets (λ w. w.config)) (λ config _.
      Yields-bind _ _ _ _
        (Yields-if (OnSome (λ r. All (BelongsTo tenant) r.0)) _ _ _
          (Yields-list_get s redis json uuids claims)
          (Yields-pure (OnSome (λ r. All (BelongsTo tenant) r.0)) none tt))
        (λ hit own.
          Yields-or_else _ _ _ (list_response-PageOf params hit own)
            (list_from_db-Yields params _)))

  pub delete_backup-Yields :
      (id : Uuid) → Yields CacheIsOwn (λ _. Unit) (Backups.delete_backup s claims id)
  unfolding Backups.delete_backup
  delete_backup-Yields id =
      Yields-bind _ _ _ _ (Yields-query (λ _. Unit) database _ anything) (λ rows _.
        Yields-bind _ _ _ _
          (Yields-if (λ _. Unit) _ _ _ (Yields-raise (λ _. Unit) _) (Yields-pure (λ _. Unit) tt tt))
          (λ _ _. Yields-bind _ _ _ _ (Yields-cache_drop s redis json uuids claims id) (λ _ _.
            Yields-bind _ _ _ _ (Yields-list_drop s redis json uuids claims)
              (λ _ _. Yields-pure (λ _. Unit) _ tt))))

  pub analyze_backup-Yields :
      (id : Uuid) (joined : Joined s)
      → Yields CacheIsOwn (OfTenant s tenant) (Backups.analyze_backup s claims id joined)
  unfolding Backups.analyze_backup
  analyze_backup-Yields id joined = Yields-bind _ _ _ _ (select_or_not_found-Yields id) (λ b own.
      Yields-bind _ _ _ _ (Yields-join joined _ _)
        (λ entropy _. Yields-pure _ _ (from_backup-OfTenant s tenant b own)))

  pub enqueue_backup-Yields :
      (id : Uuid) → Yields CacheIsOwn (λ _. Unit) (Backups.enqueue_backup s claims id)
  unfolding Backups.enqueue_backup
  enqueue_backup-Yields id = Yields-bind _ _ _ _ (select_or_not_found-Yields id) (λ b own.
      Yields-bind _ _ _ _ (Yields-gets (λ w. w.amqp_channel)) (λ channel _.
        Yields-bind _ _ _ _
          (Yields-if (λ _. Unit) channel _ _ (Yields-pure (λ _. Unit) tt tt)
            (Yields-raise (λ _. Unit) _))
          (λ _ _. Yields-bind _ _ _ _ (Yields-publish _) (λ _ _. Yields-pure (λ _. Unit) _ tt))))
