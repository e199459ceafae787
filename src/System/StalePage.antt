-- ===== src/System/StalePage.antt =====
-- apollo/ beside handlers/backups.rs: the cached page after a change of its limit.
use backup_service.Common.{
  ℕ, ◌≤◌, ◌≡◌, refl, ap, ◌∙◌, true, none, some, ok, List, map, arith, ◌>>=◌,
}
use backup_service.Common.Int.{ℤ, pos, clamp, eqb_ℤ_iff}
use backup_service.Models.{Backup, from_backup, ListParams, Claims}
use backup_service.Apollo.{RemoteConfigUpdate, no_update, apply_update, run_one_update}
use backup_service.Services.{Services}
use backup_service.Cache
use backup_service.State.{AppState, cached, with_config_mut}
use backup_service.Backups
use backup_service.Backups.{list_response, page_limit, page_offset, uses_list_cache, or_else}
use backup_service.System.{update_config}

-- A listing that may use the cache, and finds its page there, answers that page.
module _ (s : Services) (claims : Claims) (params : ListParams) (w : AppState s)
    (items : List Backup) (total : ℤ) (uses : uses_list_cache s params w.config ≡ true)
    (hit : (Cache.get_tenant_backups s.redis s.json s.uuids w.cache claims.tenant_id w.redis).0
      ≡ some (items, total)) where
  list_backups_hit :
      (Backups.list_backups s claims params w).0 ≡ ok (list_response s params (items, total))
  unfolding Backups.list_backups cached or_else ◌>>=◌
  list_backups_hit = rw (uses, hit)

-- The request for the first page under the limit `n`.
abbrev pub first_page : ℕ → ListParams
first_page n = record { offset = pos 0; limit = pos n; status = none }

-- The remote configuration sets the limit of the cached page.
abbrev pub limit_update : ℕ → RemoteConfigUpdate
limit_update n = record no_update { cached_list_limit = some (pos n) }

clamp_inside : (n : ℕ) → 1 ≤ n → n ≤ 100 → clamp (pos n) (pos 1) (pos 100) ≡ pos n
clamp_inside n least most = ground arith

module _ (s : Services) (claims : Claims) (n : ℕ) (w : AppState s) (items : List Backup) (total : ℤ)
    (least : 1 ≤ n) (most : n ≤ 100) (from_start : w.config.cached_list_offset ≡ pos 0)
    (hit : (Cache.get_tenant_backups s.redis s.json s.uuids w.cache claims.tenant_id w.redis).0
      ≡ some (items, total)) where
  uses_updated :
      uses_list_cache s (first_page n) (update_config s (ok (limit_update n)) w).config ≡ true
  unfolding update_config with_config_mut run_one_update apply_update
  uses_updated = rw (from_start, clamp_inside n least most) ((eqb_ℤ_iff (pos n) (pos n)).1 refl)

  -- If the cached page starts at the first row, the cache answers the list of a tenant, and the
  -- remote configuration then sets the limit of the cached page to a number from 1 to 100, a
  -- listing of the first page with that limit answers the cached rows and total as they are,
  -- under the new limit, however many rows there are.
  pub list_backups-update_config :
      (Backups.list_backups s claims (first_page n) (update_config s (ok (limit_update n)) w)).0
      ≡ ok (record { items = map from_backup items; total = total; offset = pos 0; limit = pos n })
  unfolding update_config with_config_mut
  list_backups-update_config =
      list_backups_hit s claims (first_page n) (update_config s (ok (limit_update n)) w) items total
        uses_updated hit
      ∙ ap
          (λ l.
            ok (record { items = map from_backup items; total = total; offset = pos 0; limit = l }))
          (clamp_inside n least most)
