-- ===== src/System/Confidential.antt =====
-- What a tenant is told by the whole service, whatever has happened before.
use backup_service.Common.{◌≡◌, String, Option, none, some, Result, ok, err, List, [], ◌∷◌}
use backup_service.Models.{Uuid, Claims}
use backup_service.Errors.{AppError}
use backup_service.Auth.{verify_token}
use backup_service.Services.{Services}
use backup_service.Services.Laws.{IsRedis, IsJson, IsUuids, IsPostgres}
use backup_service.Cache.Ownership.{ping-owned}
use backup_service.State.{AppState, with_config_mut}
use backup_service.Backups.Rules.{CacheIsOwn}
use backup_service.Grpc.Confidential.{update_status-Yields, report_result-Yields}
use backup_service.Http.{Protected, Public, health, ready, login, protected, public, Request}
use backup_service.Middleware.{bearer}
use backup_service.Middleware.Keeps.{Bears}
use backup_service.Middleware.Confidential.{BodyOf}
use backup_service.Router.{serve, call_public, check_readiness}
use backup_service.Router.Confidential.{serve-Delivers}
use backup_service.System.{
  Operation, http, status_update, result_report, config_fetch, clock, perform, perform_all,
  update_config,
}

-- The tenant of the request's token, if it has a valid one.
tenant_of_claims : Result Claims AppError → Uuid
tenant_of_claims (ok claims) = claims.tenant_id
tenant_of_claims (err e) = 0

tenant_of_token : (s : Services) → Option String → AppState s → Uuid
unfolding tenant_of_claims
tenant_of_token s none w = 0
tenant_of_token s (some token) w =
    tenant_of_claims (verify_token s.jwt w.utc token w.config.jwt_secret)

Bears-own :
    (s : Services) (request : Request) (w : AppState s)
    → Bears s (λ claims. claims.tenant_id ≡ tenant_of_token s (bearer request) w) request w
unfolding tenant_of_token tenant_of_claims
Bears-own s request w token claims e v = rw (e, v)

module _ (s : Services) (redis : IsRedis s.redis) (json : IsJson s.json) (uuids : IsUuids s.uuids)
    (postgres : IsPostgres s.postgres) where
  call_public-CacheIsOwn :
      (route : Public) (w : AppState s) → CacheIsOwn w → CacheIsOwn (call_public s route w).1
  unfolding call_public check_readiness
  call_public-CacheIsOwn health w h = h
  call_public-CacheIsOwn ready w h =
      ping-owned s.redis s.json s.uuids redis json uuids w.cache w.redis h
  call_public-CacheIsOwn (login req) w h = h

  perform-CacheIsOwn :
      (op : Operation s) (w : AppState s) → CacheIsOwn w → CacheIsOwn (perform s op w)
  unfolding perform update_config with_config_mut serve
  perform-CacheIsOwn (http (protected route) request) w h =
      (serve-Delivers s redis json uuids postgres (tenant_of_token s (bearer request) w) route
        request w (Bears-own s request w) h).1
  perform-CacheIsOwn (http (public route) request) w h = call_public-CacheIsOwn route w h
  perform-CacheIsOwn (status_update msg) w h = (update_status-Yields s msg).kept w h
  perform-CacheIsOwn (result_report result) w h = (report_result-Yields s result).kept w h
  perform-CacheIsOwn (config_fetch fetched) w h = h
  perform-CacheIsOwn (clock instant utc) w h = h

  perform_all-CacheIsOwn :
      (ops : List (Operation s)) (w : AppState s) → CacheIsOwn w → CacheIsOwn (perform_all s ops w)
  unfolding perform_all
  perform_all-CacheIsOwn [] w h = h
  perform_all-CacheIsOwn (op ∷ ops) w h =
      perform_all-CacheIsOwn ops (perform s op w) (perform-CacheIsOwn op w h)

  -- After any operations of the service, from a state in which the cached lists are their
  -- tenants' own, every backup in the response to a protected request whose token, if it reads,
  -- is the tenant's belongs to the tenant. The statement holds for every Redis, JSON and UUID
  -- crate and PostgreSQL that behave as the laws say, and for every way that statements and
  -- commands fail.
  pub serve-confidential :
      (tenant : Uuid) (ops : List (Operation s)) (start : AppState s) (route : Protected)
      (request : Request)
      → CacheIsOwn start
      → Bears s (λ claims. claims.tenant_id ≡ tenant) request (perform_all s ops start)
      → BodyOf tenant (serve s (protected route) request (perform_all s ops start)).0.body
  serve-confidential tenant ops start route request own bears =
      (serve-Delivers s redis json uuids postgres tenant route request (perform_all s ops start)
        bears (perform_all-CacheIsOwn ops start own)).0
