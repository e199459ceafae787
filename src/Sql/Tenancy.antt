-- ===== src/Sql/Tenancy.antt =====
-- The statements of one tenant leave the rows of every other as they are.
use mathlib.Core.Path.{subst}
use backup_service.Common.{
  ◌≡◌, ◌≢◌, refl, ◌∙◌, String, Bool, not, Option, List, [], ◌∷◌, ◌++◌, map, arith, select, find,
  all, Option-cases, Bool-cases, inl, inr,
}
use backup_service.Common.Int.{ℤ}
use backup_service.Models.{Uuid, Backup}
use backup_service.Services.{Postgres}
use backup_service.Sql.{
  Table, is_allowed, has_id, has_tenant, is_row_of, written, new_row, map_where, insert_backup,
  update_where, update_backup, delete_backup,
}
use backup_service.Sql.Integrity.{Preserves}

-- The rows of a tenant.
abbrev pub rows_of : Uuid → Table → List Backup
rows_of u = select (has_tenant u)

module _ (u : Uuid) where
  rows_of-append :
      (t : Table) (r : Backup) → r.tenant_id ≢ u → rows_of u (t ++ r ∷ []) ≡ rows_of u t
  rows_of-append [] r ne = ground arith
  rows_of-append (x ∷ t) r ne = ground (arith, rows_of-append t r ne)

  rows_of-map_where :
      (id tenant : Uuid) (f : Backup → Backup) (t : Table)
      → tenant ≢ u
      → ((r : Backup) → (f r).tenant_id ≡ r.tenant_id)
      → rows_of u (map_where (is_row_of id tenant) f t) ≡ rows_of u t
  unfolding map_where
  rows_of-map_where id tenant f [] ne same = refl
  rows_of-map_where id tenant f (r ∷ t) ne same =
      ground (arith, same r, rows_of-map_where id tenant f t ne same)

  rows_of-select :
      (id tenant : Uuid) (t : Table)
      → tenant ≢ u
      → rows_of u (select (λ r. not (is_row_of id tenant r)) t) ≡ rows_of u t
  rows_of-select id tenant [] ne = refl
  rows_of-select id tenant (r ∷ t) ne = ground (arith, rows_of-select id tenant t ne)

  -- The table holds these rows of the tenant.
  abbrev pub Holds : List Backup → Table → Type 0
  Holds rows t = rows_of u t ≡ rows

  module _ (pg : Postgres) (tenant : Uuid) (ne : tenant ≢ u) (rows : List Backup) where
    pub insert_backup-Holds :
        (path : String) (encryption : Bool)
        → Preserves (Holds rows) (insert_backup pg tenant path encryption)
    unfolding insert_backup
    insert_backup-Holds path encryption = record {
      at = λ a t t' x e h. elim (Option-cases (find (has_id a.uuid) t)) [
        | inl fresh ↦
            let left : t ++ new_row tenant path encryption a ∷ [] ≡ t' = ground arith in
            subst (Holds rows) left (rows_of-append t (new_row tenant path encryption a) ne ∙ h)
        | inr (r, taken) ↦ absurd (ground arith)
      ];
    }

    pub update_backup-Holds :
        (id : Uuid) (status : Option String) (size : Option ℤ)
        → Preserves (Holds rows) (update_backup pg id tenant status size)
    unfolding update_backup update_where
    update_backup-Holds id status size = record {
      at = λ a t t' x e h.
          let write = λ (r : Backup). written status size a r in
          elim (Bool-cases
            (all (λ r. is_allowed r.status) (map write (select (is_row_of id tenant) t)))) [
              | inl fine ↦
                  let left : map_where (is_row_of id tenant) write t ≡ t' = ground arith in
                  subst (Holds rows) left (rows_of-map_where id tenant write t ne (λ _. refl) ∙ h)
              | inr refused ↦ absurd (ground arith)
            ];
    }

    pub delete_backup-Holds : (id : Uuid) → Preserves (Holds rows) (delete_backup pg id tenant)
    unfolding delete_backup
    delete_backup-Holds id = record {
      at = λ a t t' x e h.
          let left : select (λ r. not (is_row_of id tenant r)) t ≡ t' = ground arith in
          subst (Holds rows) left (rows_of-select id tenant t ne ∙ h);
    }
