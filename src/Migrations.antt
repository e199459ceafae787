-- ===== src/Migrations.antt =====
-- crates/backup-service/src/db.rs: the pool, and the migrations that bring the database to its schema.
pub mod Kept
pub mod Refused
pub mod Rerun
pub mod Sent
use backup_service.Common.{
  ℕ, String, Bool, true, not, Option, none, some, Result, ok, err, List, [], ◌∷◌, ◌++◌, map, Exec,
  pure, ◌>>=◌, ◌>>◌, ◌==◌, select, any, unwrap_or, if◌then◌else◌,
}
use backup_service.Services.{Attempt, Postgres, PoolOptions}
use backup_service.Db.{deliver}
use backup_service.Sql.{Table}

abbrev pub pool_options : PoolOptions
pool_options = record {
  max_connections = 20;
  min_connections = 2;
  acquire_timeout = 5;
  idle_timeout = 600;
}

-- A row of `_sqlx_migrations`: what the code reads of it.
pub record Migration : Type 0 where
  pub version : ℕ
  pub success : Bool

-- The tables of the database, where they exist.
pub record Catalog : Type 0 where
  pub history : Option (List Migration)
  pub backups : Option Table

pub record Session (pg : Postgres) : Type 0 where
  pub catalog : Catalog
  pub server : pg.Server

-- A statement on the catalog.
abbrev pub Command : Type 0 → Type 0
Command A = Attempt → Catalog → Result (A × Catalog) String

-- The versions of the rows with `success = true`.
abbrev pub applied_versions : List Migration → List ℕ
applied_versions history = map (λ (m : Migration). m.version) (select (λ m. m.success) history)

module _ (pg : Postgres) where
  -- `CREATE TABLE IF NOT EXISTS _sqlx_migrations`
  unfoldable pub create_history : Command (Unit {0})
  create_history a c = ok (tt, record c { history = some (unwrap_or c.history []) })

  -- `SELECT version FROM _sqlx_migrations WHERE success = true`
  unfoldable pub select_applied : Command (List ℕ)
  select_applied a c = elim c.history [
    | none ↦ err pg.undefined_table
    | some history ↦ ok (applied_versions history, c)
  ]

  -- migrations/001_create_backups.sql: six commands, each with `IF NOT EXISTS`. The extension and the
  -- indexes change no row.
  unfoldable pub create_backups : Command (Unit {0})
  create_backups a c = elim pg.scripts [
    | err e ↦ err e
    | ok _ ↦ ok (tt, record c { backups = some (unwrap_or c.backups []) })
  ]

  -- `INSERT INTO _sqlx_migrations`: the version is the primary key.
  unfoldable pub insert_version : ℕ → Command (Unit {0})
  insert_version v a c = elim c.history [
    | none ↦ err pg.undefined_table
    | some history ↦
        if any (λ (m : Migration). m.version == v) history
        then err pg.unique_violation
        else ok (
          tt,
          record c { history = some (history ++ record { version = v; success = true } ∷ []) },
        )
  ]

  -- A command on its way, as `execute` sends a statement.
  unfoldable pub sent : {A : Type 0} → Command A → Exec (Session pg) String A
  sent command w =
      let a = pg.attempt w.server in
      let (r, catalog) = deliver pg command a w.catalog a.link in
      (r, record { catalog = catalog; server = pg.next w.server })

  unfoldable pub create_pool : String → Exec (Session pg) String (Unit {0})
  create_pool database_url w =
      let (r, server) = pg.connect pool_options database_url w.server in
      (r, record w { server = server })

  -- Migration 001, unless it has been applied.
  unfoldable pub apply_001 : List ℕ → Exec (Session pg) String (Unit {0})
  apply_001 applied =
      if not (any (λ v. v == 1) applied)
      then (do sent create_backups; sent (insert_version 1))
      else pure tt

  unfoldable pub run_migrations : Exec (Session pg) String (Unit {0})
  run_migrations = do sent create_history; applied ← sent select_applied; apply_001 applied
