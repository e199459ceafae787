-- ===== src/Sql/Rows.antt =====
-- A property of each row that the statements keep.
use mathlib.Core.Path.{subst}
use backup_service.Common.{
  ℕ, ◌≡◌, String, Bool, not, Option, List, [], ◌∷◌, ◌++◌, map, Result, ok, arith, select, find, all,
  All, All-append, All-select, Option-cases, Bool-cases, inl, inr,
}
use backup_service.Common.Int.{ℤ}
use backup_service.Models.{Uuid, Backup}
use backup_service.Services.{Attempt, Postgres}
use backup_service.Sql.{
  Table, is_allowed, has_id, is_row_of, new_row, map_where, insert_backup, update_where,
  update_backup, delete_backup, set_status, set_completed, set_failed,
}
use backup_service.Sql.Integrity.{Preserves}

pub Preserves-both :
    (P Q : Table → Type 0) {A : Type 0} (st : Attempt → Table → Result (A × Table) String)
    → Preserves P st
    → Preserves Q st
    → Preserves (λ t. P t × Q t) st
Preserves-both P Q st p q = record {
  at = λ a t t' x e h. (p.at a t t' x e h.0, q.at a t t' x e h.1);
}

module _ (Q : Backup → Type 0) where
  All-map_where :
      (p : Backup → Bool) (f : Backup → Backup) (t : Table)
      → ((r : Backup) → Q r → Q (f r))
      → All Q t
      → All Q (map_where p f t)
  unfolding map_where
  All-map_where p f [] k h = tt
  All-map_where p f (r ∷ t) k (here, h) = elim (Bool-cases (p r)) [
    | inl hit ↦ rw hit (k r here, All-map_where p f t k h)
    | inr miss ↦ rw miss (here, All-map_where p f t k h)
  ]

  module _ (pg : Postgres) where
    update_where-All :
        (p : Backup → Bool) (f : Backup → Backup) (a : Attempt) (t t' : Table) (x : List Backup)
        → ((r : Backup) → Q r → Q (f r))
        → update_where pg p f a t ≡ ok (x, t')
        → All Q t
        → All Q t'
    unfolding update_where
    update_where-All p f a t t' x k e h =
        elim (Bool-cases (all (λ r. is_allowed r.status) (map f (select p t)))) [
          | inl fine ↦
              let left : map_where p f t ≡ t' = ground arith in
              subst (All Q) left (All-map_where p f t k h)
          | inr refused ↦ absurd (ground arith)
        ]

    pub insert_backup-All :
        (tenant : Uuid) (path : String) (encryption : Bool)
        → ((a : Attempt) → Q (new_row tenant path encryption a))
        → Preserves (All Q) (insert_backup pg tenant path encryption)
    unfolding insert_backup
    insert_backup-All tenant path encryption q = record {
      at = λ a t t' x e h. elim (Option-cases (find (has_id a.uuid) t)) [
        | inl fresh ↦
            let row = new_row tenant path encryption a in
            let left : t ++ row ∷ [] ≡ t' = ground arith in
            subst (All Q) left (All-append Q t (row ∷ []) h (q a, tt))
        | inr (r, taken) ↦ absurd (ground arith)
      ];
    }

    pub delete_backup-All : (id tenant : Uuid) → Preserves (All Q) (delete_backup pg id tenant)
    unfolding delete_backup
    delete_backup-All id tenant = record {
      at = λ a t t' x e h.
          let left : select (λ r. not (is_row_of id tenant r)) t ≡ t' = ground arith in
          subst (All Q) left (All-select Q _ t h);
    }

    -- A property that does not depend on what updates write.
    module _
        (stable : (status : String) (size : ℤ) (now : ℕ) (r : Backup)
          → Q r
          → Q (record r { status = status; size_bytes = size; updated_at = now })) where
      pub update_backup-All :
          (id tenant : Uuid) (status : Option String) (size : Option ℤ)
          → Preserves (All Q) (update_backup pg id tenant status size)
      unfolding update_backup
      update_backup-All id tenant status size = record {
        at = λ a t t' x e h. update_where-All _ _ a t t' x (λ r. stable _ _ a.now r) e h;
      }

      pub set_status-All :
          (id : Uuid) (status : String) → Preserves (All Q) (set_status pg id status)
      unfolding set_status
      set_status-All id status = record {
        at = λ a t t' x e h.
            update_where-All _ _ a t t' x (λ r. stable status r.size_bytes a.now r) e h;
      }

      pub set_completed-All : (id : Uuid) (size : ℤ) → Preserves (All Q) (set_completed pg id size)
      unfolding set_completed
      set_completed-All id size = record {
        at = λ a t t' x e h.
            update_where-All _ _ a t t' x (λ r. stable "completed" size a.now r) e h;
      }

      pub set_failed-All : (id : Uuid) → Preserves (All Q) (set_failed pg id)
      unfolding set_failed
      set_failed-All id = record {
        at = λ a t t' x e h.
            update_where-All _ _ a t t' x (λ r. stable "failed" r.size_bytes a.now r) e h;
      }
