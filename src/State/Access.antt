-- ===== src/State/Access.antt =====
-- What the parts of the state see of one another's operations.
use backup_service.Common.{◌≡◌, String, ok}
use backup_service.Common.Outcome.Keeps.{Keeps}
use backup_service.Config.{AppConfig}
use backup_service.Services.{Services, up}
use backup_service.Sql.{Table, Statement}
use backup_service.Sql.Integrity.{Preserves}
use backup_service.Db.Runs.{execute-keeps, execute-up}
use backup_service.Cache.{CacheLayer}
use backup_service.State.{AppState, query, cached}

-- A property of the table, at a state.
abbrev pub OnTable : {s : Services} → (Table → Type 0) → AppState s → Type 0
OnTable P w = P w.db.table

module _ (s : Services) {E A : Type 0} (P : Table → Type 0) where
  pub Keeps-query :
      (f : String → E) (st : Statement A) → Preserves P st → Keeps (OnTable P) (query s f st)
  unfolding query
  Keeps-query f st keeps = record { at = λ w h. execute-keeps s.postgres P st keeps w.db h }

  pub Keeps-cached :
      (f : CacheLayer → AppConfig → s.redis.Server → A × s.redis.Server)
      → Keeps (OnTable P) (cached s {E = E} f)
  unfolding cached
  Keeps-cached f = record { at = λ w h. h }

-- The state after a statement that has left a table.
abbrev pub after_statement : (s : Services) → Table → AppState s → AppState s
after_statement s t w = record w { db = record { table = t; server = s.postgres.next w.db.server } }

pub query-up :
    (s : Services) {E A : Type 0} (f : String → E) (st : Statement A) (w : AppState s) (x : A)
    (t : Table)
    → (s.postgres.attempt w.db.server).link ≡ up
    → st (s.postgres.attempt w.db.server) w.db.table ≡ ok (x, t)
    → query s f st w ≡ (ok x, after_statement s t w)
unfolding query
query-up s f st w x t arrives runs = rw (execute-up s.postgres st x t w.db arrives runs)
