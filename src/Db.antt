-- ===== src/Db.antt =====
-- The connection to PostgreSQL: a statement of Sql.antt sent by sqlx.
pub mod Runs
use backup_service.Common.{String, Result, ok, err, Exec}
use backup_service.Services.{Attempt, Link, up, refused, lost, Postgres}
use backup_service.Sql.{Table, Statement}

pub record Db (pg : Postgres) : Type 0 where
  pub table : Table
  pub server : pg.Server

-- What the run of a statement leaves of the table, or of another store `T`: a violated constraint
-- changes nothing.
abbrev pub table_after : {A T : Type 0} → Result (A × T) String → T → T
table_after (ok (x, t')) t = t'
table_after (err e) t = t

abbrev pub answer : {A T : Type 0} → Result (A × T) String → Result A String
answer (ok (x, t')) = ok x
answer (err e) = err e

module _ {A : Type 0} (pg : Postgres) where
  abbrev pub deliver :
      {T : Type 0}
      → (Attempt → T → Result (A × T) String)
      → Attempt
      → T
      → Link
      → Result A String × T
  deliver st a t up = (answer (st a t), table_after (st a t) t)
  deliver st a t (refused e) = (err e, t)
  deliver st a t (lost e) = (err e, table_after (st a t) t)

  -- `execute` and the `fetch` methods.
  unfoldable pub execute : Statement A → Exec (Db pg) String A
  execute st db =
      let a = pg.attempt db.server in
      let (r, t) = deliver st a db.table a.link in
      (r, record { table = t; server = pg.next db.server })
