-- ===== src/Grpc/Reports.antt =====
-- grpc.rs: what the two calls do to the row they name.
use backup_service.Common.{◌≡◌, true, none, some, [], ok, err, find, ◌>>=◌, ◌+◌, suc_==_zero}
use backup_service.Models.{Uuid, Backup}
use backup_service.Proto.{StatusUpdate, ProcessingResult}
use backup_service.Services.{Services, up}
use backup_service.Sql.{has_id, is_allowed, map_where, set_status, set_completed}
use backup_service.Sql.Lookup.{
  set_status_absent, set_completed_answer, completed_row, status_row, select-found,
  set_status_answer,
}
use backup_service.State.{AppState}
use backup_service.State.Access.{query-up, after_statement}
use backup_service.Grpc.{
  update_status, report_result, missing, parse_id, record_completed, database_error,
}

module _ (s : Services) (w : AppState s) (id : Uuid)
    (arrives : (s.postgres.attempt w.db.server).link ≡ up) where
  -- If the id reads, the statement runs and its reply arrives, and no row has the id, the call
  -- fails with "not found" and leaves the table as it was, whatever the status.
  pub update_status_missing :
      (msg : StatusUpdate)
      → s.uuids.parse msg.backup_id ≡ ok id
      → find (has_id id) w.db.table ≡ none
      → update_status s msg w ≡ (err (missing s id), after_statement s w.db.table w)
  unfolding update_status parse_id ◌>>=◌
  update_status_missing msg parsed absent =
      let a = s.postgres.attempt w.db.server in
      let kept = set_status_absent id s.postgres msg.status a w.db.table absent in
      rw (
        parsed,
        query-up s (database_error s) (set_status s.postgres id msg.status) w [] w.db.table arrives
            kept,
      )

  -- The state that a report of success leaves.
  abbrev pub after_report : ProcessingResult s.floats.F64 → AppState s
  after_report result =
      let a = s.postgres.attempt w.db.server in
      let t = map_where (has_id id) (completed_row result.size_bytes a) w.db.table in
      record (after_statement s t w) { jobs_succeeded = w.jobs_succeeded + 1 }

  -- If the id reads, the status is "completed", and the statement runs and its reply arrives, the
  -- call answers with success whether or not a row has the id; of the state, beside the database
  -- server's own, only the rows of that id change, to the status, the size and the time, and the
  -- count of successes, which goes up by one.
  pub report_result_completed :
      (result : ProcessingResult s.floats.F64)
      → s.uuids.parse result.backup_id ≡ ok id
      → result.status ≡ "completed"
      → report_result s result w
        ≡ (ok (record { success = true; message = "result recorded" }), after_report result)
  unfolding report_result record_completed parse_id ◌>>=◌
  report_result_completed result parsed completed =
      let a = s.postgres.attempt w.db.server in
      rw (
        parsed,
        completed,
        query-up s (database_error s) (set_completed s.postgres id result.size_bytes) w _ _ arrives
            (set_completed_answer id s.postgres result.size_bytes a w.db.table),
      )

  -- The state that an update of the status leaves.
  abbrev pub after_update : StatusUpdate → AppState s
  after_update msg =
      let a = s.postgres.attempt w.db.server in
      after_statement s (map_where (has_id id) (status_row msg.status a) w.db.table) w

  -- If the id reads, the status is one of the four, the statement runs and its reply arrives, and
  -- a row has the id, the call answers with success, and of the state, beside the database
  -- server's own, only the rows of that id change, to the status and the time of the statement.
  pub update_status_found :
      (msg : StatusUpdate) (b : Backup)
      → s.uuids.parse msg.backup_id ≡ ok id
      → is_allowed msg.status ≡ true
      → find (has_id id) w.db.table ≡ some b
      → update_status s msg w
        ≡ (ok (record { success = true; message = "status updated" }), after_update msg)
  unfolding update_status parse_id ◌>>=◌
  update_status_found msg b parsed allowed found =
      let a = s.postgres.attempt w.db.server in
      let (rest, rows) = select-found id w.db.table b found in
      rw (
        parsed,
        query-up s (database_error s) (set_status s.postgres id msg.status) w _ _ arrives
            (set_status_answer id s.postgres msg.status a w.db.table allowed),
        rows,
        suc_==_zero,
      )
