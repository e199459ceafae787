-- ===== src/Cache/Ownership.antt =====
-- cache.rs: the list of a tenant in the cache holds backups of that tenant alone.
use mathlib.Core.Path.{subst}
use mathlib.Core.Bool.{false≢true}
use backup_service.Common.{
  ℕ, ◌≡◌, ◌≢◌, refl, sym, ◌∙◌, inl, inr, String, none, some, List, Result, ok, err, All, Bool-cases,
  ◌==◌, ==_iff, arith,
}
use backup_service.Common.Int.{ℤ}
use backup_service.Models.{Uuid, Backup}
use backup_service.Config.{AppConfig}
use backup_service.Services.{Redis, Json, Uuids}
use backup_service.Services.Laws.{IsRedis, IsJson, IsUuids, Fades}
use backup_service.Cache
use backup_service.Cache.{
  CacheLayer, tenant_key, backup_key, fetch, store, remove, set_ex_json, parsed, cache_ttl_secs,
}
use backup_service.Cache.Keys.{tenant_key-injective, backup_key-ne-tenant_key}

abbrev pub BelongsTo : Uuid → Backup → Type 0
BelongsTo tenant b = b.tenant_id ≡ tenant

-- Every list at a tenant's key that can be read holds backups of the tenant.
pub record HasOwnLists (r : Redis) (j : Json) (u : Uuids) (server : r.Server) : Type 0 where
  pub owned :
      (tenant : Uuid) (json : String) (items : List Backup) (total : ℤ)
      → r.stored server (tenant_key r j u tenant) ≡ some json
      → j.list_from_str json ≡ ok (items, total)
      → All (BelongsTo tenant) items

module _ (r : Redis) (j : Json) (u : Uuids) (redis : IsRedis r) (json : IsJson j)
    (uuids : IsUuids u) where
  Fades-owned :
      (before after : r.Server)
      → ((k : String) → Fades (r.stored before k) (r.stored after k))
      → HasOwnLists r j u before
      → HasOwnLists r j u after
  Fades-owned before after fades h = record {
    owned = λ tenant text items total found parsed.
        h.owned tenant text items total (ground (arith, fades (tenant_key r j u tenant))) parsed;
  }

  -- A write at a key that is no tenant's.
  set_ex-owned_ne :
      (k text : String) (ttl : ℕ) (server : r.Server)
      → ((tenant : Uuid) → k ≢ tenant_key r j u tenant)
      → HasOwnLists r j u server
      → HasOwnLists r j u (r.set_ex k text ttl server).1
  set_ex-owned_ne k text ttl server ne h = record {
    owned = λ tenant t items total found parsed.
        let fades = redis.set_ex_ne k (tenant_key r j u tenant) text ttl server (ne tenant) in
        h.owned tenant t items total (ground (arith, fades)) parsed;
  }

  -- What a reader of the tenant's own key finds after a write of its list.
  own_list :
      (tenant : Uuid) (items items' : List Backup) (total total' : ℤ) (text t : String) (ttl : ℕ)
      (server : r.Server)
      → j.list_to_string (items, total) ≡ ok text
      → All (BelongsTo tenant) items
      → HasOwnLists r j u server
      → r.stored (r.set_ex (tenant_key r j u tenant) text ttl server).1 (tenant_key r j u tenant)
        ≡ some t
      → j.list_from_str t ≡ ok (items', total')
      → All (BelongsTo tenant) items'
  own_list tenant items items' total total' text t ttl server written own h found parsed =
      elim (redis.set_ex_self (tenant_key r j u tenant) text ttl server) [
        | inl fades ↦ h.owned tenant t items' total' (ground (arith, fades)) parsed
        | inr new ↦
            let back = json.list (items, total) text written in
            let same : items ≡ items' = cc in subst (All (BelongsTo tenant)) same own
      ]

  -- A write of a tenant's own list.
  set_ex-owned_self :
      (tenant : Uuid) (items : List Backup) (total : ℤ) (text : String) (ttl : ℕ)
      (server : r.Server)
      → j.list_to_string (items, total) ≡ ok text
      → All (BelongsTo tenant) items
      → HasOwnLists r j u server
      → HasOwnLists r j u (r.set_ex (tenant_key r j u tenant) text ttl server).1
  set_ex-owned_self tenant items total text ttl server written own h = record {
    owned = λ other t items' total' found parsed. elim (Bool-cases (tenant == other)) [
      | inl same ↦
          let e = (==_iff tenant other).0 same in
          subst (λ o. All (BelongsTo o) items') e
            (own_list tenant items items' total total' text t ttl server written own h
              (subst
                (λ o.
                  r.stored (r.set_ex (tenant_key r j u tenant) text ttl server).1
                    (tenant_key r j u o)
                  ≡ some t)
                (sym e) found)
              parsed)
      | inr different ↦
          let apart = λ (e : tenant_key r j u tenant ≡ tenant_key r j u other). false≢true (
            sym different
            ∙ (==_iff tenant other).1 (tenant_key-injective r j u uuids tenant other e)) in
          let fades =
            redis.set_ex_ne (tenant_key r j u tenant) (tenant_key r j u other) text ttl server
              apart in
          h.owned other t items' total' (ground (arith, fades)) parsed
    ];
  }

  abbrev Keeping : {A : Type 0} → (r.Server → A × r.Server) → Type 0
  Keeping f = (server : r.Server) → HasOwnLists r j u server → HasOwnLists r j u (f server).1

  fetch-owned :
      {A : Type 0} (cache : CacheLayer) (key : String) (parse : String → Result A String)
      → Keeping (fetch r j u cache key parse)
  fetch-owned cache key parse server h = elim (Bool-cases cache.redis) [
    | inl connected ↦
        rw connected (Fades-owned server (r.get key server).1 (λ k. redis.get_keeps key k server) h)
    | inr off ↦ rw off h
  ]

  remove-owned : (cache : CacheLayer) (key : String) → Keeping (remove r j u cache key)
  remove-owned cache key server h = elim (Bool-cases cache.redis) [
    | inl connected ↦
        rw connected (Fades-owned server (r.del key server).1 (λ k. redis.del_keeps key k server) h)
    | inr off ↦ rw off h
  ]

  pub get_backup-owned :
      (cache : CacheLayer) (id : Uuid) → Keeping (Cache.get_backup r j u cache id)
  unfolding Cache.get_backup
  get_backup-owned cache id = fetch-owned cache (backup_key r j u id) j.backup_from_str

  pub get_tenant_backups-owned :
      (cache : CacheLayer) (tenant : Uuid) → Keeping (Cache.get_tenant_backups r j u cache tenant)
  unfolding Cache.get_tenant_backups
  get_tenant_backups-owned cache tenant =
      fetch-owned cache (tenant_key r j u tenant) j.list_from_str

  pub invalidate_backup-owned :
      (cache : CacheLayer) (id : Uuid) → Keeping (Cache.invalidate_backup r j u cache id)
  unfolding Cache.invalidate_backup
  invalidate_backup-owned cache id = remove-owned cache (backup_key r j u id)

  pub invalidate_tenant_backups-owned :
      (cache : CacheLayer) (tenant : Uuid)
      → Keeping (Cache.invalidate_tenant_backups r j u cache tenant)
  unfolding Cache.invalidate_tenant_backups
  invalidate_tenant_backups-owned cache tenant = remove-owned cache (tenant_key r j u tenant)

  pub set_backup-owned :
      (cache : CacheLayer) (config : AppConfig) (b : Backup)
      → Keeping (Cache.set_backup r j u cache config b)
  unfolding Cache.set_backup cache_ttl_secs
  set_backup-owned cache config b server h = elim (Bool-cases cache.redis) [
    | inl connected ↦ rw connected (go (j.backup_to_string b))
    | inr off ↦ rw off h
  ]
    where
      go :
          (t : Result String String)
          → HasOwnLists r j u
              (set_ex_json r j u (backup_key r j u b.id) t (cache_ttl_secs cache config) server)
      go (err e) = h
      go (ok text) =
          set_ex-owned_ne (backup_key r j u b.id) text (cache_ttl_secs cache config) server
            (λ tenant. backup_key-ne-tenant_key r j u uuids b.id tenant) h

  pub set_tenant_backups-owned :
      (cache : CacheLayer) (config : AppConfig) (tenant : Uuid) (items : List Backup) (total : ℤ)
      → All (BelongsTo tenant) items
      → Keeping (Cache.set_tenant_backups r j u cache config tenant items total)
  unfolding Cache.set_tenant_backups cache_ttl_secs
  set_tenant_backups-owned cache config tenant items total own server h =
      elim (Bool-cases cache.redis) [
        | inl connected ↦ rw connected (go (j.list_to_string (items, total)) refl)
        | inr off ↦ rw off h
      ]
    where
      go :
          (t : Result String String)
          → j.list_to_string (items, total) ≡ t
          → HasOwnLists r j u
              (set_ex_json r j u (tenant_key r j u tenant) t (cache_ttl_secs cache config) server)
      go (err e) w = h
      go (ok text) w =
          set_ex-owned_self tenant items total text (cache_ttl_secs cache config) server w own h

  parsed-eq-some :
      {A : Type 0} (parse : String → Result A String) (reply : Result String String) (a : A)
      → parsed r j u parse reply ≡ some a
      → (text : String) × (reply ≡ ok text) × (parse text ≡ ok a)
  parsed-eq-some parse (err e) a h = cc
  parsed-eq-some {A} parse (ok text) a h = (text, refl, go (parse text) h)
    where
      go : (p : Result A String) → (elim p [ err e ↦ none | ok b ↦ some b ]) ≡ some a → p ≡ ok a
      go (err e) h = cc
      go (ok b) h = cc

  fetch-eq-some :
      {A : Type 0} (cache : CacheLayer) (key : String) (parse : String → Result A String) (a : A)
      (server : r.Server)
      → (fetch r j u cache key parse server).0 ≡ some a
      → (text : String) × (r.stored server key ≡ some text) × (parse text ≡ ok a)
  fetch-eq-some cache key parse a server h = elim (Bool-cases cache.redis) [
    | inl connected ↦
        let (text, got, read) = parsed-eq-some parse (r.get key server).0 a (rw connected at h) in
        (
          text,
          redis.get_value key text server (r.get key server).1 (λ i. (got i, (r.get key server).1)),
          read,
        )
    | inr off ↦ cc (rw off at h)
  ]

  -- A list that is read from the cache is the tenant's own.
  pub get_tenant_backups-BelongsTo :
      (cache : CacheLayer) (tenant : Uuid) (server : r.Server) (items : List Backup) (total : ℤ)
      → HasOwnLists r j u server
      → (Cache.get_tenant_backups r j u cache tenant server).0 ≡ some (items, total)
      → All (BelongsTo tenant) items
  unfolding Cache.get_tenant_backups
  get_tenant_backups-BelongsTo cache tenant server items total h e =
      let (text, found, read) =
        fetch-eq-some cache (tenant_key r j u tenant) j.list_from_str (items, total) server e in
      h.owned tenant text items total found read

  pub ping-owned : (cache : CacheLayer) → Keeping (Cache.ping r j u cache)
  unfolding Cache.ping
  ping-owned cache server h = elim (Bool-cases cache.redis) [
    | inl connected ↦
        rw connected (Fades-owned server (r.ping server).1 (λ k. redis.ping_keeps k server) h)
    | inr off ↦ rw off h
  ]
