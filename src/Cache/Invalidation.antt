-- ===== src/Cache/Invalidation.antt =====
-- cache.rs: an invalidated entry is not read again.
use backup_service.Common.Int.{ℤ}
use backup_service.Common.{
  List, ◌≡◌, refl, ap, ◌∙◌, if_true, if_false, inl, inr, String, true, Option, none, Result, ok,
  err, Bool-cases,
}
use backup_service.Models.{Uuid, Backup}
use backup_service.Services.{Redis, Json, Uuids}
use backup_service.Services.Laws.{IsRedis, Fades}
use backup_service.Cache
use backup_service.Cache.{CacheLayer, backup_key, tenant_key, parsed, remove}

module _ (r : Redis) (j : Json) (u : Uuids) where
  -- The command of an invalidation is answered, if there is a connection.
  abbrev pub IsInvalidated : CacheLayer → Uuid → r.Server → Type 0
  IsInvalidated cache id server =
      cache.redis ≡ true → (r.del (backup_key r j u id) server).0 ≡ ok tt

  -- The state after the two invalidations of an update or a deletion.
  abbrev pub after_invalidations : CacheLayer → Uuid → Uuid → r.Server → r.Server
  after_invalidations cache id tenant server =
      (Cache.invalidate_tenant_backups r j u cache tenant
        (Cache.invalidate_backup r j u cache id server).1).1

module _ (r : Redis) (j : Json) (u : Uuids) (redis : IsRedis r) where
  -- Nothing is stored, so a reply holds no value.
  parsed-eq-none :
      {A : Type 0} (parse : String → Result A String) (k : String) (server : r.Server)
      → r.stored server k ≡ none
      → parsed r j u parse (r.get k server).0 ≡ none
  parsed-eq-none {A = A} parse k server absent = go (r.get k server).0 refl
    where
      go :
          (reply : Result String String)
          → (r.get k server).0 ≡ reply
          → parsed r j u parse reply ≡ none
      go (err e) got = refl
      go (ok text) got =
          let stored =
            redis.get_value k text server (r.get k server).1 (λ i. (got i, (r.get k server).1)) in
          cc (absent, stored)

  Fades-none : (before after : Option String) → Fades before after → before ≡ none → after ≡ none
  Fades-none before after (inl gone) absent = gone
  Fades-none before after (inr same) absent = cc

  pub stored-after_invalidations :
      (cache : CacheLayer) (id tenant : Uuid) (server : r.Server)
      → IsInvalidated r j u cache id server
      → cache.redis ≡ true
      → r.stored (after_invalidations r j u cache id tenant server) (backup_key r j u id) ≡ none
  unfolding Cache.invalidate_backup Cache.invalidate_tenant_backups
  stored-after_invalidations cache id tenant server dropped connected =
      let k = backup_key r j u id in
      let server1 = (r.del k server).1 in
      let gone = redis.del_ok k server server1 (λ i. (dropped connected i, server1)) in
      rw connected (Fades-none _ _ (redis.del_keeps (tenant_key r j u tenant) k server1) gone)

  pub get_backup-after_invalidations :
      (cache : CacheLayer) (id tenant : Uuid) (server : r.Server)
      → IsInvalidated r j u cache id server
      → (Cache.get_backup r j u cache id (after_invalidations r j u cache id tenant server)).0
        ≡ none
  unfolding Cache.get_backup
  get_backup-after_invalidations cache id tenant server dropped = elim (Bool-cases cache.redis) [
    | inl connected ↦
        ap (λ (p : Option Backup × r.Server). p.0) (if_true cache.redis _ _ connected)
        ∙ parsed-eq-none j.backup_from_str (backup_key r j u id)
            (after_invalidations r j u cache id tenant server)
            (stored-after_invalidations cache id tenant server dropped connected)
    | inr off ↦ ap (λ (p : Option Backup × r.Server). p.0) (if_false cache.redis _ _ off)
  ]

  -- The same of a tenant's list.
  abbrev pub IsListInvalidated : CacheLayer → Uuid → r.Server → Type 0
  IsListInvalidated cache tenant server =
      cache.redis ≡ true → (r.del (tenant_key r j u tenant) server).0 ≡ ok tt

  stored-invalidate_tenant_backups :
      (cache : CacheLayer) (tenant : Uuid) (server : r.Server)
      → IsListInvalidated cache tenant server
      → cache.redis ≡ true
      → r.stored
          (Cache.invalidate_tenant_backups r j u cache tenant server).1
          (tenant_key r j u tenant)
        ≡ none
  unfolding Cache.invalidate_tenant_backups
  stored-invalidate_tenant_backups cache tenant server dropped connected =
      let k = tenant_key r j u tenant in
      let server1 = (r.del k server).1 in
      rw connected (redis.del_ok k server server1 (λ i. (dropped connected i, server1)))

  pub get_tenant_backups-invalidate_tenant_backups :
      (cache : CacheLayer) (tenant : Uuid) (server : r.Server)
      → IsListInvalidated cache tenant server
      → (Cache.get_tenant_backups r j u cache tenant
          (Cache.invalidate_tenant_backups r j u cache tenant server).1).0
        ≡ none
  unfolding Cache.get_tenant_backups
  get_tenant_backups-invalidate_tenant_backups cache tenant server dropped =
      let server' = (Cache.invalidate_tenant_backups r j u cache tenant server).1 in
      elim (Bool-cases cache.redis) [
        | inl connected ↦
            ap (λ (p : Option (List Backup × ℤ) × r.Server). p.0)
              (if_true cache.redis _ _ connected)
            ∙ parsed-eq-none j.list_from_str (tenant_key r j u tenant) server'
                (stored-invalidate_tenant_backups cache tenant server dropped connected)
        | inr off ↦
            ap (λ (p : Option (List Backup × ℤ) × r.Server). p.0) (if_false cache.redis _ _ off)
      ]
