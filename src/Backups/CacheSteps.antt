-- ===== src/Backups/CacheSteps.antt =====
-- handlers/backups.rs: the cache's methods in a handler, as steps that keep every tenant's list its
-- own.
use backup_service.Common.{
  ◌≡◌, refl, Option, none, some, List, [], ◌∷◌, map, ◌==◌, ==_iff, All, Bool-cases, inl, inr,
}
use backup_service.Common.Int.{ℤ}
use backup_service.Common.Outcome.Yields.{Yields}
use backup_service.Models.{Uuid, Backup, BackupResponse, from_backup, Claims}
use backup_service.Services.{Services}
use backup_service.Services.Laws.{IsRedis, IsJson, IsUuids}
use backup_service.Sql.Answers.{OnSome}
use backup_service.Cache
use backup_service.Cache.{CacheLayer}
use backup_service.Cache.Ownership.{
  BelongsTo, get_backup-owned, get_tenant_backups-owned, invalidate_backup-owned,
  invalidate_tenant_backups-owned, set_backup-owned, set_tenant_backups-owned,
  get_tenant_backups-BelongsTo,
}
use backup_service.State.{AppState}
use backup_service.Backups.Rules.{CacheIsOwn, Yields-cached}
use backup_service.Backups.{
  map_option, owned, cache_get, cache_set, cache_drop, list_get, list_set, list_drop,
}

module _ (s : Services) where
  abbrev pub OfTenant : Uuid → BackupResponse s.floats.F64 → Type 0
  OfTenant tenant r = r.tenant_id ≡ tenant

  pub from_backup-OfTenant :
      (tenant : Uuid) (b : Backup) → BelongsTo tenant b → OfTenant tenant (from_backup b)
  unfolding from_backup
  from_backup-OfTenant tenant b h = h

  pub map-from_backup :
      (tenant : Uuid) (bs : List Backup)
      → All (BelongsTo tenant) bs
      → All (OfTenant tenant) (map from_backup bs)
  map-from_backup tenant [] h = tt
  map-from_backup tenant (b ∷ bs) (p, h) =
      (from_backup-OfTenant tenant b p, map-from_backup tenant bs h)

  pub owned-OfTenant :
      (tenant : Uuid) (hit : Option Backup)
      → OnSome (OfTenant tenant) (map_option from_backup (owned tenant hit))
  owned-OfTenant tenant none = tt
  owned-OfTenant tenant (some b) = elim (Bool-cases (b.tenant_id == tenant)) [
    | inl same ↦ rw same (from_backup-OfTenant tenant b ((==_iff _ _).0 same))
    | inr other ↦ rw other tt
  ]

  module _ (redis : IsRedis s.redis) (json : IsJson s.json) (uuids : IsUuids s.uuids)
      (claims : Claims) where
    abbrev tenant : Uuid
    tenant = claims.tenant_id

    pub Yields-cache_get : (id : Uuid) → Yields CacheIsOwn (λ _. Unit) (cache_get s id)
    Yields-cache_get id =
        Yields-cached (λ _. Unit) _
          (λ w h.
            (get_backup-owned s.redis s.json s.uuids redis json uuids w.cache id w.redis h, tt))

    pub Yields-cache_set : (b : Backup) → Yields CacheIsOwn (λ _. Unit) (cache_set s b)
    Yields-cache_set b =
        Yields-cached (λ _. Unit) _
          (λ w h. (
            set_backup-owned s.redis s.json s.uuids redis json uuids w.cache w.config b w.redis h,
            tt,
          ))

    pub Yields-cache_drop : (id : Uuid) → Yields CacheIsOwn (λ _. Unit) (cache_drop s id)
    Yields-cache_drop id =
        Yields-cached (λ _. Unit) _
          (λ w h. (
            invalidate_backup-owned s.redis s.json s.uuids redis json uuids w.cache id w.redis h,
            tt,
          ))

    pub Yields-list_drop : Yields CacheIsOwn (λ _. Unit) (list_drop s tenant)
    Yields-list_drop =
        Yields-cached (λ _. Unit) _
          (λ w h. (
            invalidate_tenant_backups-owned s.redis s.json s.uuids redis json uuids w.cache tenant
                w.redis h,
            tt,
          ))

    pub Yields-list_set :
        (items : List Backup) (total : ℤ)
        → All (BelongsTo tenant) items
        → Yields CacheIsOwn (λ _. Unit) (list_set s tenant items total)
    Yields-list_set items total own =
        Yields-cached (λ _. Unit) _
          (λ w h. (
            set_tenant_backups-owned s.redis s.json s.uuids redis json uuids w.cache w.config tenant
                items total own w.redis h,
            tt,
          ))

    pub Yields-list_get :
        Yields CacheIsOwn (OnSome (λ r. All (BelongsTo tenant) r.0)) (list_get s tenant)
    Yields-list_get = Yields-cached (OnSome (λ r. All (BelongsTo tenant) r.0)) _ (λ w h. (
      get_tenant_backups-owned s.redis s.json s.uuids redis json uuids w.cache tenant w.redis h,
      found w h (Cache.get_tenant_backups s.redis s.json s.uuids w.cache tenant w.redis).0 refl,
    ))
      where
        found :
            (w : AppState s)
            → CacheIsOwn w
            → (o : Option (List Backup × ℤ))
            → (Cache.get_tenant_backups s.redis s.json s.uuids w.cache tenant w.redis).0 ≡ o
            → OnSome (λ r. All (BelongsTo tenant) r.0) o
        found w h none e = tt
        found w h (some (items, total)) e =
            get_tenant_backups-BelongsTo s.redis s.json s.uuids redis json uuids w.cache tenant
              w.redis items total h e
