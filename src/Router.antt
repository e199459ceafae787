-- ===== src/Router.antt =====
-- crates/backup-service/src/router.rs and handlers/health.rs: the routes behind their layers. The
-- layers of tower-http (limits on the body and the time, compression, tracing, CORS) are left out.
pub mod Access
pub mod Confidential
pub mod Keeps
pub mod Tenancy
use backup_service.Common.{
  ℕ, String, Bool, true, false, ◌&&◌, Option, none, some, Result, ok, err, [], is_ok, if◌then◌else◌,
}
use backup_service.Models.{Claims}
use backup_service.Errors.{AppError, internal}
use backup_service.Errors.StatusCode
use backup_service.Auth
use backup_service.Backups
use backup_service.Cache
use backup_service.Services.{Services}
use backup_service.Sql.{Statement}
use backup_service.Db.{execute}
use backup_service.State.{AppState}
use backup_service.Http.{
  Protected, list, create, get, update, delete, analyze, process, Public, health, ready, login,
  Endpoint, protected, public, Request, Response, Body, no_content, backup, backups, enqueued,
  token, alive, readiness, plain, error_response, respond,
}
use backup_service.Middleware.{Next, auth_middleware, rate_limit_middleware}

-- `SELECT 1`
abbrev select_one : Statement (Unit {0})
select_one a table = ok (tt, table)

-- A response with a body and no headers of its own.
abbrev pub with_body : {F : Type 0} → ℕ → Body F → Response F
with_body code body = record { code = code; headers = []; body = body }

module _ (s : Services) where
  abbrev pub Reply : Type 0
  Reply = Response s.floats.F64

  -- `readiness` of handlers/health.rs
  unfoldable pub check_readiness : AppState s → Reply × AppState s
  check_readiness w =
      let (db, db') = execute s.postgres select_one w.db in
      let (redis_ok, server) = Cache.ping s.redis s.json s.uuids w.cache w.redis in
      let db_ok = is_ok db in
      let is_ready = db_ok && redis_ok in
      (
        with_body (if is_ready then StatusCode.ok else StatusCode.service_unavailable)
            (readiness (if is_ready then "ready" else "not ready") db_ok redis_ok),
        record w { db = db'; redis = server },
      )

  -- A handler's result as a response.
  abbrev answer : {A : Type 0} → (A → Reply) → Result A AppError × AppState s → Reply × AppState s
  answer f (r, w) = (respond f r, w)

  unfoldable pub call : Protected → Claims → AppState s → Reply × AppState s
  call (list params) claims w =
      answer (λ r. with_body StatusCode.ok (backups r)) (Backups.list_backups s claims params w)
  call (create req) claims w =
      answer (λ r. with_body r.0 (backup r.1)) (Backups.create_backup s claims req w)
  call (get id) claims w =
      answer (λ r. with_body StatusCode.ok (backup r)) (Backups.get_backup s claims id w)
  call (update id req) claims w =
      answer (λ r. with_body StatusCode.ok (backup r)) (Backups.update_backup s claims id req w)
  call (delete id) claims w =
      answer (λ code. with_body code no_content) (Backups.delete_backup s claims id w)
  call (analyze id joined) claims w =
      answer (λ r. with_body StatusCode.ok (backup r)) (Backups.analyze_backup s claims id joined w)
  call (process id) claims w =
      answer (λ r. with_body r.0 (enqueued r.1)) (Backups.enqueue_backup s claims id w)

  -- The `Extension` extractor rejects a request without claims.
  abbrev with_claims : Protected → Option Claims → AppState s → Reply × AppState s
  with_claims route none w = (with_body s.missing_extension.0 (plain s.missing_extension.1), w)
  with_claims route (some claims) w = call route claims w

  unfoldable pub run_handler : Protected → Request → AppState s → Reply × AppState s
  run_handler route request w = with_claims route request.claims w

  -- Both sides of a middleware's result are responses.
  abbrev merged : Result Reply Reply × AppState s → Reply × AppState s
  merged (ok r, w) = (r, w)
  merged (err r, w) = (r, w)

  unfoldable pub call_public : Public → AppState s → Reply × AppState s
  call_public health w = (with_body StatusCode.ok alive, w)
  call_public ready w = check_readiness w
  call_public (login req) w =
      answer (λ r. with_body StatusCode.ok (token r))
        (Auth.login s.jwt w.utc w.config.jwt_secret req, w)

  -- The protected routes behind the rate limiter.
  abbrev pub limited_next : Protected → Next s
  limited_next route request w = merged (rate_limit_middleware s request (run_handler route) w)

  -- `create_router`: a layer that is added later is outside, so the token is checked first.
  unfoldable pub serve : Endpoint → Request → AppState s → Reply × AppState s
  serve (protected route) request w =
      answer (λ r. r) (auth_middleware s request (limited_next route) w)
  serve (public route) request w = call_public route w
