-- ===== src/Migrations/Refused.antt =====
-- crates/backup-service/src/db.rs: a server that refuses a text of several commands.
use backup_service.Common.{
  ℕ, ◌≡◌, refl, String, Bool, true, false, Option, none, some, ok, err, List, [], ◌∷◌, ◌>>◌, ◌==◌,
  ◌||◌, any, unwrap_or, Bool-cases, inl, inr,
}
use backup_service.Common.Outcome.Keeps.{Keeps, Keeps-bind, Keeps-if, Keeps-pure}
use backup_service.Common.Outcome.Achieves.{Achieves, Achieves-bind, Keeps-bind-achieved}
use backup_service.Services.{Postgres}
use backup_service.Migrations.{
  Migration, Catalog, Session, applied_versions, create_history, select_applied, create_backups,
  insert_version, sent, apply_001, run_migrations,
}
use backup_service.Migrations.Kept.{history_of, has_version}
use backup_service.Migrations.Sent.{After, Gives, Keeps-sent, Achieves-sent}

-- Version 1 is not on record.
abbrev pub IsPending : Catalog → Type 0
IsPending c = has_version 1 (history_of c) ≡ false

orf : (a b : Bool) → (a || b) ≡ false → (a ≡ false) × (b ≡ false)
orf true b e = cc
orf false b e = (refl, e)

unread :
    (history : List Migration)
    → has_version 1 history ≡ false
    → any (λ w. w == 1) (applied_versions history) ≡ false
unread [] e = refl
unread (m ∷ history) e =
    let (here, later) = orf (m.version == 1) (has_version 1 history) e in
    elim (Bool-cases m.success) [
      | inl succeeded ↦ rw (succeeded, here) (unread history later)
      | inr failed ↦ rw failed (unread history later)
    ]

module _ (pg : Postgres) (e : String) (refuses : pg.scripts ≡ err e) where
  create_history-IsPending : Gives IsPending (create_history pg) (λ _. IsPending)
  unfolding create_history
  create_history-IsPending a c pending = pending

  -- What is read has no version 1.
  select_applied-unread :
      Gives IsPending (select_applied pg) (λ applied _. any (λ v. v == 1) applied ≡ false)
  unfolding select_applied
  select_applied-unread a c pending = go c.history pending
    where
      go :
          (history : Option (List Migration))
          → has_version 1 (unwrap_or history []) ≡ false
          → After {A = List ℕ}
              (elim history [
                | none ↦ err pg.undefined_table
                | some history ↦ ok (applied_versions history, c)
              ])
              (λ applied _. any (λ v. v == 1) applied ≡ false)
      go none _ = tt
      go (some history) absent = unread history absent

  select_applied-IsPending : Gives IsPending (select_applied pg) (λ _. IsPending)
  unfolding select_applied
  select_applied-IsPending a c pending = go c.history
    where
      go :
          (history : Option (List Migration))
          → After {A = List ℕ}
              (elim history [
                | none ↦ err pg.undefined_table
                | some history ↦ ok (applied_versions history, c)
              ])
              (λ _. IsPending)
      go none = tt
      go (some history) = pending

  create_backups_fails : Gives (λ _. Unit) (create_backups pg) (λ _ _. ⊥)
  unfolding create_backups
  create_backups_fails a c _ = rw refuses tt

  apply_001_fails :
      (applied : List ℕ)
      → Achieves (λ _. any (λ v. v == 1) applied ≡ false) (apply_001 pg applied) (λ _ _. ⊥)
  unfolding apply_001
  apply_001_fails applied = record { at = λ w absent a done. fails w absent a done }
    where
      creates :
          Achieves
            (λ _. Unit)
            (do sent pg (create_backups pg); sent pg (insert_version pg 1))
            (λ _ _. ⊥)
      creates =
          Achieves-bind {R = λ _ _. ⊥} _ _
            (Achieves-sent pg (create_backups pg) (λ _. Unit) (λ _ _. ⊥) create_backups_fails)
            (λ _. record { at = λ _ bad _ _. absurd bad })

      fails :
          (w : Session pg)
          → any (λ v. v == 1) applied ≡ false
          → (a : Unit {0}) → (apply_001 pg applied w).0 ≡ ok a
          → ⊥
      fails w absent a = rw absent (creates.at w tt a)

  -- No run of the migrations succeeds.
  pub run_migrations_never :
      Achieves (λ (w : Session pg). IsPending w.catalog) (run_migrations pg) (λ _ _. ⊥)
  unfolding run_migrations
  run_migrations_never =
      Achieves-bind {R = λ _ (w : Session pg). IsPending w.catalog} _ _
        (Achieves-sent pg (create_history pg) IsPending (λ _. IsPending) create_history-IsPending)
        (λ _.
          Achieves-bind {R = λ applied _. any (λ v. v == 1) applied ≡ false} _ _
            (Achieves-sent pg (select_applied pg) IsPending _ select_applied-unread)
            apply_001_fails)

  create_backups-IsPending : Gives IsPending (create_backups pg) (λ _. IsPending)
  unfolding create_backups
  create_backups-IsPending a c _ = rw refuses tt

  abbrev pub PendingAt : Session pg → Type 0
  PendingAt w = IsPending w.catalog

  apply_001-Keeps : (applied : List ℕ) → Keeps PendingAt (apply_001 pg applied)
  unfolding apply_001
  apply_001-Keeps applied =
      Keeps-if _ _ _
        (Keeps-bind-achieved {R = λ _ _. ⊥} PendingAt _ _
          (Keeps-sent pg (create_backups pg) IsPending create_backups-IsPending)
          (record {
            at = λ w _.
                (Achieves-sent pg (create_backups pg) (λ _. Unit) (λ _ _. ⊥)
                    create_backups_fails).at
                  w tt;
          })
          (λ _ _ bad. absurd bad))
        (Keeps-pure tt)

  -- It leaves version 1 unrecorded.
  pub run_migrations-IsPending : Keeps PendingAt (run_migrations pg)
  unfolding run_migrations
  run_migrations-IsPending =
      Keeps-bind _ _ (Keeps-sent pg (create_history pg) IsPending create_history-IsPending) (λ _.
        Keeps-bind _ _ (Keeps-sent pg (select_applied pg) IsPending select_applied-IsPending)
          apply_001-Keeps)
