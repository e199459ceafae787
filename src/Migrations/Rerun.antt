-- ===== src/Migrations/Rerun.antt =====
-- crates/backup-service/src/db.rs: migrations that failed half way, and their next run.
use backup_service.Common.{
  ℕ, zero, suc, ◌≡◌, refl, ap, ◌∙◌, sym, true, false, some, ok, List, [], ◌∷◌, ◌++◌, ◌>>=◌, ◌==◌,
  unwrap_or, Bool-cases, ==_refl, inl, inr,
}
use backup_service.Services.{up, Postgres}
use backup_service.Sql.{Table}
use backup_service.Migrations.{
  Migration, Catalog, Session, applied_versions, create_history, select_applied, create_backups,
  insert_version, sent, apply_001, run_migrations,
}
use backup_service.Migrations.Kept.{rows, history_of, has_version, Holds, any-applied}
use backup_service.Migrations.Sent.{sent-up}

-- The next `n` commands are answered.
abbrev pub Answered : (pg : Postgres) → ℕ → pg.Server → Type 0
Answered pg zero server = Unit
Answered pg (suc n) server = ((pg.attempt server).link ≡ up) × Answered pg n (pg.next server)

-- The catalog after migration 001.
abbrev pub IsMigrated : Table → Catalog → Type 0
IsMigrated t c = (c.backups ≡ some t) × (has_version 1 (history_of c) ≡ true)

has_version-append :
    (history : List Migration) (m : Migration) → has_version m.version (history ++ m ∷ []) ≡ true
has_version-append [] m = rw (==_refl m.version) refl
has_version-append (x ∷ history) m = elim (Bool-cases (x.version == m.version)) [
  | inl same ↦ rw same refl
  | inr other ↦ rw other (has_version-append history m)
]

module _ (pg : Postgres) (t : Table) (accepted : pg.scripts ≡ ok tt) where
  -- A session with its first table.
  abbrev with_history : Session pg → Catalog
  with_history w = record w.catalog { history = some (history_of w.catalog) }

  abbrev after : ℕ → pg.Server → pg.Server
  after zero server = server
  after (suc n) server = after n (pg.next server)

  create_backups-ok :
      (w : Session pg)
      → (pg.attempt w.server).link ≡ up
      → sent pg (create_backups pg) w ≡ (
        ok tt,
        record {
          catalog = record w.catalog { backups = some (rows w.catalog) };
          server = pg.next w.server;
        },
      )
  unfolding create_backups
  create_backups-ok w arrives = sent-up pg (create_backups pg) w _ tt arrives (rw accepted refl)

  insert_version-ok :
      (w : Session pg) (history : List Migration)
      → w.catalog.history ≡ some history
      → has_version 1 history ≡ false
      → (pg.attempt w.server).link ≡ up
      → sent pg (insert_version pg 1) w ≡ (
        ok tt,
        record {
          catalog = record w.catalog {
            history = some (history ++ record { version = 1; success = true } ∷ []);
          };
          server = pg.next w.server;
        },
      )
  unfolding insert_version
  insert_version-ok w history e absent arrives =
      sent-up pg (insert_version pg 1) w _ tt arrives (rw (e, absent) refl)

  apply_001-Answered :
      (w : Session pg)
      → w.catalog.history ≡ some (history_of w.catalog)
      → Holds t w.catalog
      → Answered pg 2 w.server
      → ((apply_001 pg (applied_versions (history_of w.catalog)) w).0 ≡ ok tt)
        × IsMigrated t (apply_001 pg (applied_versions (history_of w.catalog)) w).1.catalog
  unfolding apply_001 ◌>>=◌
  apply_001-Answered w e (consistent, same) (first, (second, _)) =
      let history = history_of w.catalog in
      let read = any-applied 1 history consistent.clean in
      elim (Bool-cases (has_version 1 history)) [
        | inl applied ↦
            (let (table, has) = consistent.made applied in
              rw (read, applied)
                (refl, (has ∙ ap some (sym (ap (λ o. unwrap_or o []) has) ∙ same), applied)))
        | inr absent ↦
            rw
              (
                read,
                absent,
                create_backups-ok w first,
                insert_version-ok
                    (record {
                      catalog = record w.catalog { backups = some (rows w.catalog) };
                      server = pg.next w.server;
                    })
                    history e absent second,
              )
              (
                refl,
                (ap some same, has_version-append history (record { version = 1; success = true })),
              )
      ]

  pub run_migrations-Answered :
      (w : Session pg)
      → Holds t w.catalog
      → Answered pg 4 w.server
      → ((run_migrations pg w).0 ≡ ok tt) × IsMigrated t (run_migrations pg w).1.catalog
  unfolding run_migrations ◌>>=◌ create_history select_applied
  run_migrations-Answered w (consistent, same) (first, (second, later)) =
      let c = with_history w in
      let w1 : Session pg = record { catalog = c; server = pg.next w.server } in
      let w2 : Session pg = record { catalog = c; server = pg.next (pg.next w.server) } in
      rw
        (
          sent-up pg (create_history pg) w c tt first refl,
          sent-up pg (select_applied pg) w1 c (applied_versions (history_of w.catalog)) second refl,
        )
        (apply_001-Answered w2 refl
          (record { clean = consistent.clean; made = consistent.made }, same) later)
