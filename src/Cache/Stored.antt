-- ===== src/Cache/Stored.antt =====
-- cache.rs: a backup that was stored where nothing was is read back, if Redis still has it.
use backup_service.Common.{
  ℕ, ◌≡◌, refl, sym, ap, ◌∙◌, if_true, ◌⊎◌, inl, inr, String, true, Option, none, some, Result, ok,
  err,
}
use backup_service.Models.{Backup}
use backup_service.Config.{AppConfig}
use backup_service.Services.{Redis, Json, Uuids}
use backup_service.Services.Laws.{IsRedis, IsJson, Fades}
use backup_service.Cache
use backup_service.Cache.{CacheLayer, backup_key, parsed, set_ex_json, cache_ttl_secs}

module _ (r : Redis) (j : Json) (u : Uuids) (redis : IsRedis r) (json : IsJson j) where
  -- What is stored after a write, if anything is, is what was written.
  written_value :
      (before after : Option String) (v text : String)
      → Fades before after ⊎ (after ≡ some v)
      → before ≡ none
      → after ≡ some text
      → v ≡ text
  written_value before after v text (inl (inl gone)) absent got = cc
  written_value before after v text (inl (inr same)) absent got = cc
  written_value before after v text (inr now) absent got = cc

  read_back :
      (b : Backup) (ttl : ℕ) (k text : String) (server : r.Server) (t : Result String String)
      → j.backup_to_string b ≡ t
      → r.stored server k ≡ none
      → r.stored (set_ex_json r j u k t ttl server) k ≡ some text
      → j.backup_from_str text ≡ ok b
  read_back b ttl k text server (err e) wrote absent got = cc
  read_back b ttl k text server (ok v) wrote absent got =
      let same = written_value _ _ v text (redis.set_ex_self k v ttl server) absent got in
      rw (← same) (json.backup b v wrote)

  parsed-ok :
      {A : Type 0} (parse : String → Result A String) (text : String) (a : A)
      → parse text ≡ ok a
      → parsed r j u parse (ok text) ≡ some a
  parsed-ok {A = A} parse text a e = go (parse text) e
    where
      go :
          (p : Result A String)
          → p ≡ ok a
          → (elim p as (λ _. Option A) [ err e ↦ none | ok b ↦ some b ]) ≡ some a
      go (err x) e = cc
      go (ok b) e = cc

  pub get_backup-set_backup :
      (cache : CacheLayer) (config : AppConfig) (b : Backup) (text : String) (server : r.Server)
      → cache.redis ≡ true
      → r.stored server (backup_key r j u b.id) ≡ none
      → (r.get (backup_key r j u b.id) (Cache.set_backup r j u cache config b server).1).0 ≡ ok text
      → (Cache.get_backup r j u cache b.id (Cache.set_backup r j u cache config b server).1).0
        ≡ some b
  unfolding Cache.get_backup Cache.set_backup
  get_backup-set_backup cache config b text server connected absent answers =
      let k = backup_key r j u b.id in
      let after = set_ex_json r j u k (j.backup_to_string b) (cache_ttl_secs cache config) server in
      let wrote : (Cache.set_backup r j u cache config b server).1 ≡ after =
        ap (λ (p : Unit {0} × r.Server). p.1) (if_true cache.redis _ _ connected) in
      let answered : (r.get k after).0 ≡ ok text = ap (λ w. (r.get k w).0) (sym wrote) ∙ answers in
      let got =
        redis.get_value k text after (r.get k after).1 (λ i. (answered i, (r.get k after).1)) in
      let read =
        read_back b (cache_ttl_secs cache config) k text server (j.backup_to_string b) refl absent
          got in
      ap (λ w. (Cache.get_backup r j u cache b.id w).0) wrote
      ∙ ap (λ (p : Option Backup × r.Server). p.0) (if_true cache.redis _ _ connected)
      ∙ ap (λ reply. parsed r j u j.backup_from_str reply) answered
      ∙ parsed-ok j.backup_from_str text b read
