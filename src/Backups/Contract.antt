-- ===== src/Backups/Contract.antt =====
-- handlers/backups.rs: after a write, a tenant lists what its abstract store holds.
use text.Mathlib.Text.{◌==◌ as str_eq}
use backup_service.Common.{
  ◌≡◌, String, Bool, true, is_ok, Option, none, some, List, select, find, length, take, drop,
}
use backup_service.Common.Int.{pos, pos_part}
use backup_service.Models.{Backup, ListParams, ListResponse, Claims}
use backup_service.Services.{Services}
use backup_service.Sql.{Table, is_row_of}
use backup_service.Cache
use backup_service.State.{AppState}
use backup_service.Backups
use backup_service.Backups.{Response, page_limit, page_offset, list_response}
use backup_service.Backups.Refinement.{Change, created, updated, deleted}

-- The condition on the status alone.
abbrev has_status : Option String → Backup → Bool
has_status none r = true
has_status (some status) r = str_eq r.status status

-- The response to a listing of an abstract store with these rows.
abbrev pub store_page : (s : Services) → ListParams → List Backup → ListResponse (Response s)
store_page s params rows =
    let chosen = select (has_status params.status) rows in
    list_response s params (
      take (pos_part (page_limit s params))
          (drop (pos_part (page_offset s params)) (s.postgres.order_by_created_at_desc chosen)),
      pos (length chosen),
    )

-- The row that a change is about is there.
abbrev pub Finds : Claims → Change → Table → Type 0
Finds claims (created req) t = Unit
Finds claims (updated id req) t = (b : Backup) × (find (is_row_of id claims.tenant_id) t ≡ some b)
Finds claims (deleted id) t = (b : Backup) × (find (is_row_of id claims.tenant_id) t ≡ some b)

-- Whether the handler of a change answers without an error.
pub answers : (s : Services) → Claims → Change → AppState s → Bool
answers s claims (created req) w = is_ok (Backups.create_backup s claims req w).0
answers s claims (updated id req) w = is_ok (Backups.update_backup s claims id req w).0
answers s claims (deleted id) w = is_ok (Backups.delete_backup s claims id w).0

module _ (s : Services) (claims : Claims) (w : AppState s) where
  -- Redis when the handler of a change comes to drop the tenant's list.
  abbrev pub before_drop : Change → s.redis.Server
  before_drop (created req) = w.redis
  before_drop (updated id req) =
      (Cache.invalidate_backup s.redis s.json s.uuids w.cache id w.redis).1
  before_drop (deleted id) = (Cache.invalidate_backup s.redis s.json s.uuids w.cache id w.redis).1
