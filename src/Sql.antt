-- ===== src/Sql.antt =====
-- The table of migrations/001_create_backups.sql and the SQL statements that the service sends, each
-- a function of the table. The statements stand in crates/backup-service/src/handlers/backups.rs and
-- grpc.rs; what their text leaves to the server is in the `Attempt`.
pub mod Answers
pub mod Integrity
pub mod Lookup
pub mod Own
pub mod Rows
pub mod Tenancy
use backup_service.Common.{
  ℕ, ◌+◌, String, Bool, true, false, not, ◌&&◌, ◌||◌, Option, none, some, List, [], ◌∷◌, ◌++◌, map,
  Result, ok, err, ◌==◌, if◌then◌else◌, select, find, all, take, drop, length, unwrap_or,
}
use backup_service.Common.Int.{ℤ, pos, pos_part, ltb_ℤ}
use backup_service.Models.{Uuid, Timestamp, Backup}
use backup_service.Services.{Attempt, Postgres}
use text.Mathlib.Text.{◌==◌ as str_eq}

-- The rows of `backups`, in the order in which they were inserted.
abbrev pub Table : Type 0
Table = List Backup

-- `CHECK (status IN (…))`
abbrev pub is_allowed : String → Bool
is_allowed s = str_eq s "pending" || str_eq s "running" || str_eq s "completed" || str_eq s "failed"

-- A statement answers and leaves a table, or violates a constraint and changes nothing.
abbrev pub Statement : Type 0 → Type 0
Statement A = Attempt → Table → Result (A × Table) String

-- `WHERE id = $1 AND tenant_id = $2`, `WHERE id = $1`, `WHERE tenant_id = $1`, and with a status
abbrev pub is_row_of : Uuid → Uuid → Backup → Bool
is_row_of id tenant r = (r.id == id) && (r.tenant_id == tenant)

abbrev pub has_id : Uuid → Backup → Bool
has_id id r = r.id == id

abbrev pub has_tenant : Uuid → Backup → Bool
has_tenant tenant r = r.tenant_id == tenant

abbrev pub matches : Uuid → Option String → Backup → Bool
matches tenant none r = r.tenant_id == tenant
matches tenant (some status) r = (r.tenant_id == tenant) && str_eq r.status status

-- The rows that `UPDATE … SET … WHERE …` leaves.
unfoldable pub map_where : (Backup → Bool) → (Backup → Backup) → Table → Table
map_where p f [] = []
map_where p f (r ∷ rows) = (if p r then f r else r) ∷ map_where p f rows

-- The row of an `INSERT`, with the defaults of the migration.
abbrev pub new_row : Uuid → String → Bool → Attempt → Backup
new_row tenant path encryption a = record {
  id = a.uuid;
  tenant_id = tenant;
  source_path = path;
  size_bytes = pos 0;
  status = "pending";
  encryption_enabled = encryption;
  created_at = a.now;
  updated_at = a.now;
}

-- The `SET` of `update_backup`, with its `COALESCE`.
abbrev pub written : Option String → Option ℤ → Attempt → Backup → Backup
written status size a r = record r {
  status = unwrap_or status r.status;
  size_bytes = unwrap_or size r.size_bytes;
  updated_at = a.now;
}

module _ (pg : Postgres) where
  -- `id` is the primary key.
  unfoldable pub insert_backup : Uuid → String → Bool → Statement Backup
  insert_backup tenant path encryption a table =
      let row = new_row tenant path encryption a in
      elim (find (has_id a.uuid) table) [
        | some _ ↦ err pg.unique_violation
        | none ↦ ok (row, table ++ row ∷ [])
      ]

  unfoldable pub select_backup : Uuid → Uuid → Statement (Option Backup)
  select_backup id tenant a table = ok (find (is_row_of id tenant) table, table)

  unfoldable pub select_page : Uuid → Option String → ℤ → ℤ → Statement (List Backup)
  select_page tenant status limit offset a table =
      if ltb_ℤ limit (pos 0) || ltb_ℤ offset (pos 0)
      then err pg.negative_limit
      else ok (
        take (pos_part limit) (
            drop (pos_part offset)
              (pg.order_by_created_at_desc (select (matches tenant status) table))),
        table,
      )

  unfoldable pub select_count : Uuid → Option String → Statement ℤ
  select_count tenant status a table =
      ok (pos (length (select (matches tenant status) table)), table)

  -- `UPDATE`: the rows as they are afterwards, if the check constraint lets them be.
  unfoldable pub update_where : (Backup → Bool) → (Backup → Backup) → Statement (List Backup)
  update_where p f a table =
      let changed = map f (select p table) in
      if all (λ r. is_allowed r.status) changed
      then ok (changed, map_where p f table)
      else err pg.check_violation

  -- The statement of `update_backup`.
  unfoldable pub update_backup : Uuid → Uuid → Option String → Option ℤ → Statement (List Backup)
  update_backup id tenant status size a =
      update_where (is_row_of id tenant) (written status size a) a

  -- `DELETE`, with `rows_affected`.
  unfoldable pub delete_backup : Uuid → Uuid → Statement ℕ
  delete_backup id tenant a table =
      ok (
        length (select (is_row_of id tenant) table),
        select (λ r. not (is_row_of id tenant r)) table,
      )

  -- The three statements of the gRPC service, which have no condition on the tenant.
  unfoldable pub set_status : Uuid → String → Statement (List Backup)
  set_status id status a =
      update_where (has_id id) (λ r. record r { status = status; updated_at = a.now }) a

  unfoldable pub set_completed : Uuid → ℤ → Statement (List Backup)
  set_completed id size a =
      update_where (has_id id)
        (λ r. record r { status = "completed"; size_bytes = size; updated_at = a.now }) a

  unfoldable pub set_failed : Uuid → Statement (List Backup)
  set_failed id a =
      update_where (has_id id) (λ r. record r { status = "failed"; updated_at = a.now }) a
