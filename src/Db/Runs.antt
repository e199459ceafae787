-- ===== src/Db/Runs.antt =====
-- What a sent statement leaves of the table.
use backup_service.Common.{◌≡◌, refl, ap, String, Result, ok, err}
use backup_service.Services.{Attempt, Link, up, refused, lost, Postgres}
use backup_service.Sql.{Table, Statement}
use backup_service.Common.Outcome.Yields.{Good}
use backup_service.Sql.Answers.{Answers}
use backup_service.Sql.Integrity.{Preserves}
use backup_service.Db.{Db, deliver, table_after, answer, execute}

module _ {A : Type 0} (pg : Postgres) (P : Table → Type 0) (st : Statement A)
    (keeps : Preserves P st) where
  table_after-keeps : (a : Attempt) (t : Table) → P t → P (table_after (st a t) t)
  table_after-keeps a t h = go (st a t) refl
    where
      go : (r : Result (A × Table) String) → st a t ≡ r → P (table_after r t)
      go (ok (x, t')) e = keeps.at a t t' x e h
      go (err e) _ = h

  deliver-keeps : (a : Attempt) (t : Table) (l : Link) → P t → P (deliver pg st a t l).1
  deliver-keeps a t up h = table_after-keeps a t h
  deliver-keeps a t (refused e) h = h
  deliver-keeps a t (lost e) h = table_after-keeps a t h

  -- However a statement fares, it keeps what its run keeps.
  pub execute-keeps : (db : Db pg) → P db.table → P (execute pg st db).1.table
  unfolding execute
  execute-keeps db h = deliver-keeps (pg.attempt db.server) db.table (pg.attempt db.server).link h

module _ {A : Type 0} (pg : Postgres) (st : Statement A) (x : A) (t' : Table) where
  deliver-up :
      (a : Attempt) (t : Table) (l : Link)
      → l ≡ up
      → st a t ≡ ok (x, t')
      → deliver pg st a t l ≡ (ok x, t')
  deliver-up a t l arrives runs = rw (arrives, runs)

  -- A statement whose reply arrives answers what it runs to.
  pub execute-up :
      (db : Db pg)
      → (pg.attempt db.server).link ≡ up
      → st (pg.attempt db.server) db.table ≡ ok (x, t')
      → execute pg st db ≡ (ok x, record { table = t'; server = pg.next db.server })
  unfolding execute
  execute-up db arrives runs =
      let a = pg.attempt db.server in
      ap (λ r. (r.0, record { table = r.1; server = pg.next db.server }))
        (deliver-up a db.table a.link arrives runs)

-- What is answered is an answer of the statement.
module _ {A : Type 0} (pg : Postgres) (Q : A → Type 0) (st : Statement A)
    (answers : Answers Q st) where
  answer-Good : (a : Attempt) (t : Table) → Good Q (answer (st a t))
  answer-Good a t = go (st a t) refl
    where
      go : (r : Result (A × Table) String) → st a t ≡ r → Good Q (answer r)
      go (ok (x, t')) e = answers.at a t t' x e
      go (err e) _ = tt

  deliver-Good : (a : Attempt) (t : Table) (l : Link) → Good Q (deliver pg st a t l).0
  deliver-Good a t up = answer-Good a t
  deliver-Good a t (refused e) = tt
  deliver-Good a t (lost e) = tt

  pub execute-Answers : (db : Db pg) → Good Q (execute pg st db).0
  unfolding execute
  execute-Answers db = deliver-Good (pg.attempt db.server) db.table (pg.attempt db.server).link
