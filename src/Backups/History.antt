-- ===== src/Backups/History.antt =====
-- handlers/backups.rs: a history of creations, updates and deletions by many tenants, and what it
-- makes of the rows of one of them.
use mathlib.Core.Path.{subst}
use backup_service.Common.{
  ◌≡◌, ◌≢◌, refl, ap, ◌∙◌, List, [], ◌∷◌, arith, if◌then◌else◌, ◌==◌, Bool-cases, inl, inr,
}
use backup_service.Models.{Uuid, Backup, Claims}
use backup_service.Services.{Attempt, Services, up}
use backup_service.Sql.Tenancy.{
  rows_of, Holds, insert_backup-Holds, update_backup-Holds, delete_backup-Holds,
}
use backup_service.State.{AppState}
use backup_service.State.Access.{OnTable}
use backup_service.Backups.Integrity.{create_backup-Keeps, update_backup-Keeps, delete_backup-Keeps}
use backup_service.Backups.Refinement.{
  Change, created, updated, deleted, apply, handle, Fits, rows_of-handle,
}

-- The rows of a tenant are out of the reach of the others, however their statements fare.
pub handle-Holds :
    (s : Services) (u : Uuid) (rows : List Backup) (claims : Claims) (change : Change)
    (w : AppState s)
    → claims.tenant_id ≢ u
    → OnTable (Holds u rows) w
    → OnTable (Holds u rows) (handle s claims change w)
unfolding handle
handle-Holds s u rows claims (created req) w ne h =
    (create_backup-Keeps s (Holds u rows) claims req
        (insert_backup-Holds u s.postgres claims.tenant_id ne rows _ _)).at
      w h
handle-Holds s u rows claims (updated id req) w ne h =
    (update_backup-Keeps s (Holds u rows) claims id req
        (update_backup-Holds u s.postgres claims.tenant_id ne rows id _ _)).at
      w h
handle-Holds s u rows claims (deleted id) w ne h =
    (delete_backup-Keeps s (Holds u rows) claims id
        (delete_backup-Holds u s.postgres claims.tenant_id ne rows id)).at
      w h

-- The abstract store after its own changes, each with what the server has given it.
unfoldable pub store : Uuid → List (Attempt × Change) → List Backup → List Backup
store u [] rows = rows
store u ((a, change) ∷ rest) rows = store u rest (apply u a change rows)

module _ (s : Services) where
  -- The handlers, one after the other.
  unfoldable pub run : List (Claims × Change) → AppState s → AppState s
  run [] w = w
  run ((claims, change) ∷ rest) w = run rest (handle s claims change w)

  module _ (u : Uuid) where
    -- The changes of the tenant `u` in a history.
    unfoldable pub own_changes : List (Claims × Change) → AppState s → List (Attempt × Change)
    own_changes [] w = []
    own_changes ((claims, change) ∷ rest) w =
        let later = own_changes rest (handle s claims change w) in
        if claims.tenant_id == u then (s.postgres.attempt w.db.server, change) ∷ later else later

    -- Each change of the tenant `u` is run and answered, and fits the table that it finds.
    unfoldable pub AllFit : List (Claims × Change) → AppState s → Type 0
    AllFit [] w = Unit
    AllFit ((claims, change) ∷ rest) w =
        (claims.tenant_id ≡ u
          → ((s.postgres.attempt w.db.server).link ≡ up)
            × Fits (s.postgres.attempt w.db.server) change w.db.table)
        × AllFit rest (handle s claims change w)

    own_step :
        (claims : Claims) (change : Change) (w : AppState s)
        → claims.tenant_id ≡ u
        → (s.postgres.attempt w.db.server).link ≡ up
        → Fits (s.postgres.attempt w.db.server) change w.db.table
        → rows_of u (handle s claims change w).db.table
          ≡ apply u (s.postgres.attempt w.db.server) change (rows_of u w.db.table)
    own_step claims change w own arrives fits =
        subst
          (λ (t : Uuid).
            rows_of t (handle s claims change w).db.table
            ≡ apply t (s.postgres.attempt w.db.server) change (rows_of t w.db.table))
          own (rows_of-handle s claims change w arrives fits)

    -- To a tenant the service is a store of its own, whatever the others do: in every history
    -- of creations, updates and deletions by any tenants, if each change of the tenant `u` is
    -- run and answered, a creation of its has an accepted path and a fresh id, and an update of
    -- its finds the statuses of the table among the four, then the rows of `u` at the end are
    -- exactly what its own changes, in their order, make of its abstract store; nothing is
    -- asked of the statements of the other tenants, which may fail.
    pub rows_of-run :
        (history : List (Claims × Change)) (w : AppState s)
        → AllFit history w
        → rows_of u (run history w).db.table
          ≡ store u (own_changes history w) (rows_of u w.db.table)
    unfolding run own_changes AllFit store
    rows_of-run [] w _ = refl
    rows_of-run ((claims, change) ∷ rest) w (now, later) =
        let w' = handle s claims change w in
        let next = rows_of-run rest w' later in
        elim (Bool-cases (claims.tenant_id == u)) [
          | inl same ↦
              let own : claims.tenant_id ≡ u = ground arith in
              let (arrives, fits) = now own in
              rw same (
                next
                ∙ ap (store u (own_changes rest w')) (own_step claims change w own arrives fits))
          | inr other ↦
              let foreign : claims.tenant_id ≢ u = ground arith in
              rw other (
                next
                ∙ ap (store u (own_changes rest w'))
                    (handle-Holds s u (rows_of u w.db.table) claims change w foreign refl))
        ]
