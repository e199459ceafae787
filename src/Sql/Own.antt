-- ===== src/Sql/Own.antt =====
-- What the statements of a tenant make of its own rows.
use backup_service.Common.{◌≡◌, refl, not, [], ◌∷◌, ◌++◌, arith, select}
use backup_service.Models.{Uuid, Backup}
use backup_service.Sql.{Table, has_id, is_row_of, map_where}
use backup_service.Sql.Tenancy.{rows_of}

module _ (u : Uuid) where
  pub rows_of-append :
      (t : Table) (r : Backup) → r.tenant_id ≡ u → rows_of u (t ++ r ∷ []) ≡ rows_of u t ++ r ∷ []
  rows_of-append [] r own = ground arith
  rows_of-append (x ∷ t) r own = ground (arith, rows_of-append t r own)

  pub rows_of-map_where :
      (id : Uuid) (f : Backup → Backup) (t : Table)
      → ((r : Backup) → (f r).tenant_id ≡ r.tenant_id)
      → rows_of u (map_where (is_row_of id u) f t) ≡ map_where (has_id id) f (rows_of u t)
  unfolding map_where
  rows_of-map_where id f [] same = refl
  rows_of-map_where id f (r ∷ t) same = ground (arith, same r, rows_of-map_where id f t same)

  pub rows_of-select :
      (id : Uuid) (t : Table)
      → rows_of u (select (λ r. not (is_row_of id u r)) t)
        ≡ select (λ r. not (has_id id r)) (rows_of u t)
  rows_of-select id [] = refl
  rows_of-select id (r ∷ t) = ground (arith, rows_of-select id t)
