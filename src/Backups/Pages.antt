-- ===== src/Backups/Pages.antt =====
-- handlers/backups.rs: the page that a listing takes from the table.
use backup_service.Common.{
  ◌≡◌, refl, false, ok, List, arith, pure, ◌>>=◌, Bool, true, if◌then◌else◌, select, take, drop,
  length,
}
use backup_service.Common.Int.{ℤ, pos, pos_part, ltb_ℤ, clamp, max_ℤ}
use backup_service.Models.{Backup, ListParams, Claims}
use backup_service.Errors.{database}
use backup_service.Services.{Attempt, Services, up}
use backup_service.Sql.{matches, select_page, select_count}
use backup_service.State.{AppState, cached}
use backup_service.State.Access.{query-up, after_statement}
use backup_service.Backups
use backup_service.Backups.{page_limit, page_offset, list_response, list_from_db, list_set}

limit_positive : (a : ℤ) → ltb_ℤ (clamp a (pos 1) (pos 100)) (pos 0) ≡ false
limit_positive a = ground arith

offset_positive : (a : ℤ) → ltb_ℤ (max_ℤ a (pos 0)) (pos 0) ≡ false
offset_positive a = ground arith

module _ (s : Services) (claims : Claims) (params : ListParams) (w : AppState s)
    (arrives : (s.postgres.attempt w.db.server).link ≡ up)
    (arrives_again : (s.postgres.attempt (s.postgres.next w.db.server)).link ≡ up) where
  -- The rows that the listing is about, and those of the page.
  abbrev pub matching : List Backup
  matching = select (matches claims.tenant_id params.status) w.db.table

  abbrev pub page_rows : List Backup
  page_rows =
      take (pos_part (page_limit s params))
        (drop (pos_part (page_offset s params)) (s.postgres.order_by_created_at_desc matching))

  select_page_answer :
      (a : Attempt)
      → select_page s.postgres claims.tenant_id params.status
          (page_limit s params)
          (page_offset s params)
          a
          w.db.table
        ≡ ok (page_rows, w.db.table)
  unfolding select_page
  select_page_answer a = rw (limit_positive params.limit, offset_positive params.offset)

  -- Whether the page is written to the cache makes no difference to the answer.
  list_set_answer :
      {A : Type 0} (use_list_cache : Bool) (items : List Backup) (total : ℤ) (a : A)
      (v : AppState s)
      → (((if use_list_cache then list_set s claims.tenant_id items total else pure tt) >>= λ _.
            pure a)
          v).0
        ≡ ok a
  unfolding ◌>>=◌ cached
  list_set_answer true items total a v = refl
  list_set_answer false items total a v = refl

  pub list_from_db_lem :
      (use_list_cache : Bool)
      → (list_from_db s claims params use_list_cache w).0
        ≡ ok (list_response s params (page_rows, pos (length matching)))
  unfolding list_from_db ◌>>=◌ select_count
  list_from_db_lem use_list_cache =
      let one =
        query-up s database
          (select_page s.postgres claims.tenant_id params.status (page_limit s params)
            (page_offset s params))
          w page_rows w.db.table arrives (select_page_answer (s.postgres.attempt w.db.server)) in
      let two =
        query-up s database (select_count s.postgres claims.tenant_id params.status)
          (after_statement s w.db.table w) (pos (length matching)) w.db.table arrives_again refl in
      rw (one, two)
        (list_set_answer use_list_cache page_rows (pos (length matching)) _
          (after_statement s w.db.table (after_statement s w.db.table w)))
