-- ===== src/Migrations/Kept.antt =====
-- crates/backup-service/src/db.rs: what a run of the migrations keeps, wherever it fails.
use mathlib.Core.Path.{subst}
use backup_service.Common.{
  ℕ, ◌≡◌, refl, ap, String, Bool, true, false, Option, none, some, Result, ok, err, List, [], ◌∷◌,
  ◌++◌, ◌==◌, ◌||◌, any, All, All-append, unwrap_or, if◌then◌else◌,
}
use backup_service.Common.Outcome.Keeps.{Keeps, Keeps-bind, Keeps-if, Keeps-pure}
use backup_service.Common.Outcome.Achieves.{Keeps-bind-achieved}
use backup_service.Services.{Postgres}
use backup_service.Sql.{Table}
use backup_service.Migrations.{
  Migration, Catalog, Session, applied_versions, create_history, select_applied, create_backups,
  insert_version, apply_001, run_migrations,
}
use backup_service.Migrations.Sent.{After, After-fst, Gives, Keeps-sent, Achieves-sent, sent_any}

-- The rows of the table, where there is one.
abbrev pub rows : Catalog → Table
rows c = unwrap_or c.backups []

abbrev pub history_of : Catalog → List Migration
history_of c = unwrap_or c.history []

abbrev pub has_version : ℕ → List Migration → Bool
has_version v = any (λ (m : Migration). m.version == v)

abbrev pub HasSucceeded : Migration → Type 0
HasSucceeded m = m.success ≡ true

-- No failed migration is on record, and if the first is then its table exists.
pub record IsConsistent (c : Catalog) : Type 0 where
  pub clean : All HasSucceeded (history_of c)
  pub made : has_version 1 (history_of c) ≡ true → (t : Table) × (c.backups ≡ some t)

-- The same rows in a consistent catalog.
abbrev pub Holds : Table → Catalog → Type 0
Holds t c = IsConsistent c × (rows c ≡ t)

abbrev HasTable : Table → Catalog → Type 0
HasTable t c = Holds t c × (c.backups ≡ some t)

-- A version that is on record without failure is read as applied.
pub any-applied :
    (v : ℕ) (history : List Migration)
    → All HasSucceeded history
    → any (λ w. w == v) (applied_versions history) ≡ has_version v history
any-applied v [] h = refl
any-applied v (m ∷ history) (succeeded, h) =
    rw succeeded (ap (λ rest. (m.version == v) || rest) (any-applied v history h))

module _ (pg : Postgres) (t : Table) where
  create_history-Holds : Gives (Holds t) (create_history pg) (λ _. Holds t)
  unfolding create_history
  create_history-Holds a c (consistent, same) =
      (record { clean = consistent.clean; made = consistent.made }, same)

  select_applied-Holds : Gives (Holds t) (select_applied pg) (λ _. Holds t)
  unfolding select_applied
  select_applied-Holds a c h = go c.history
    where
      go :
          (history : Option (List Migration))
          → After {A = List ℕ}
              (elim history [
                | none ↦ err pg.undefined_table
                | some history ↦ ok (applied_versions history, c)
              ])
              (λ _. Holds t)
      go none = tt
      go (some history) = h

  create_backups-HasTable : Gives (Holds t) (create_backups pg) (λ _. HasTable t)
  unfolding create_backups
  create_backups-HasTable a c (consistent, same) = go pg.scripts
    where
      go :
          (scripts : Result (Unit {0}) String)
          → After {A = Unit {0}}
              (elim scripts [
                | err e ↦ err e
                | ok _ ↦ ok (tt, record c { backups = some (unwrap_or c.backups []) })
              ])
              (λ _. HasTable t)
      go (err e) = tt
      go (ok _) =
          ((record { clean = consistent.clean; made = λ _. (rows c, refl) }, same), ap some same)

  create_backups-Holds : Gives (Holds t) (create_backups pg) (λ _. Holds t)
  create_backups-Holds a c h =
      After-fst (Holds t) (λ c. c.backups ≡ some t) (create_backups pg a c)
        (create_backups-HasTable a c h)

  insert_version-Holds : Gives (HasTable t) (insert_version pg 1) (λ _. Holds t)
  unfolding insert_version
  insert_version-Holds a c ((consistent, same), has) = go c.history refl
    where
      new : Migration
      new = record { version = 1; success = true }

      go_some :
          (history : List Migration) (taken : Bool)
          → c.history ≡ some history
          → After {A = Unit {0}}
              (if taken
                then err pg.unique_violation
                else ok (tt, record c { history = some (history ++ new ∷ []) }))
              (λ _. Holds t)
      go_some history true e = tt
      go_some history false e = (
        record {
          clean =
              All-append HasSucceeded history (new ∷ [])
                (subst (λ o. All HasSucceeded (unwrap_or o [])) e consistent.clean) (refl, tt);
          made = λ _. (t, has);
        },
        same,
      )

      go :
          (history : Option (List Migration))
          → c.history ≡ history
          → After {A = Unit {0}}
              (elim history [
                | none ↦ err pg.undefined_table
                | some history ↦
                    if has_version 1 history
                    then err pg.unique_violation
                    else ok (tt, record c { history = some (history ++ new ∷ []) })
              ])
              (λ _. Holds t)
      go none e = tt
      go (some history) e = go_some history (has_version 1 history) e

  abbrev pub HoldsAt : Session pg → Type 0
  HoldsAt w = Holds t w.catalog

  apply_001-Keeps : (applied : List ℕ) → Keeps HoldsAt (apply_001 pg applied)
  unfolding apply_001
  apply_001-Keeps applied =
      Keeps-if _ _ _
        (Keeps-bind-achieved HoldsAt _ _
          (Keeps-sent pg (create_backups pg) (Holds t) create_backups-Holds)
          (Achieves-sent pg (create_backups pg) (Holds t) (λ _. HasTable t) create_backups-HasTable)
          (λ _ w has.
            sent_any pg (insert_version pg 1) (HasTable t) (Holds t) (λ c h. h.0)
              insert_version-Holds w has))
        (Keeps-pure tt)

  -- However its commands fare, a run of the migrations keeps the rows and leaves the catalog
  -- consistent.
  pub run_migrations-Keeps : Keeps HoldsAt (run_migrations pg)
  unfolding run_migrations
  run_migrations-Keeps =
      Keeps-bind _ _ (Keeps-sent pg (create_history pg) (Holds t) create_history-Holds) (λ _.
        Keeps-bind _ _ (Keeps-sent pg (select_applied pg) (Holds t) select_applied-Holds)
          apply_001-Keeps)
