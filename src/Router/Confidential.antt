-- ===== src/Router/Confidential.antt =====
-- router.rs: a response holds backups of the tenant in the token alone.
use mathlib.Core.Path.{subst}
use backup_service.Common.{◌≡◌, sym, Result, ok, err}
use backup_service.Common.Outcome.Yields.{Good, Yields}
use backup_service.Models.{Uuid, Claims}
use backup_service.Errors.{AppError}
use backup_service.Services.{Services}
use backup_service.Services.Laws.{IsRedis, IsJson, IsUuids, IsPostgres}
use backup_service.State.{AppState}
use backup_service.Http.{
  Protected, list, create, get, update, delete, analyze, process, protected, Request,
  error_response,
}
use backup_service.Middleware.{rate_limit_middleware}
use backup_service.Middleware.Keeps.{Bears}
use backup_service.Middleware.Confidential.{
  BodyOf, Delivers, Hands, Hands-auth_middleware, Hands-rate_limit_middleware, NextDelivers,
}
use backup_service.Backups.Rules.{CacheIsOwn}
use backup_service.Backups.Confidential.{
  create_backup-Yields, get_backup-Yields, list_backups-Yields, update_backup-Yields,
  delete_backup-Yields, analyze_backup-Yields, enqueue_backup-Yields,
}
use backup_service.Router.{
  Reply, answer, call, run_handler, with_claims, merged, limited_next, serve,
}

module _ (s : Services) (redis : IsRedis s.redis) (json : IsJson s.json) (uuids : IsUuids s.uuids)
    (postgres : IsPostgres s.postgres) where
  -- A handler's result as a response.
  Delivers-respond :
      (tenant : Uuid) {A : Type 0} (f : A → Reply s) (Q : A → Type 0) (r : Result A AppError)
      (w : AppState s)
      → ((a : A) → Q a → BodyOf tenant (f a).body)
      → Good Q r
      → CacheIsOwn w
      → Delivers s tenant (answer s f (r, w))
  unfolding error_response
  Delivers-respond tenant f Q (ok a) w k q h = (k a q, h)
  Delivers-respond tenant f Q (err e) w k q h = (tt, h)

  Delivers-answer :
      (tenant : Uuid) {A : Type 0} (f : A → Reply s) (Q : A → Type 0)
      (m : AppState s → Result A AppError × AppState s)
      → Yields CacheIsOwn Q m
      → ((a : A) → Q a → BodyOf tenant (f a).body)
      → (w : AppState s) → CacheIsOwn w
      → Delivers s tenant (answer s f (m w))
  Delivers-answer tenant f Q m y k w h =
      Delivers-respond tenant f Q (m w).0 (m w).1 k (y.good w h) (y.kept w h)

  call-Delivers :
      (route : Protected) (claims : Claims) (w : AppState s)
      → CacheIsOwn w
      → Delivers s claims.tenant_id (call s route claims w)
  unfolding call
  call-Delivers (list params) claims w h =
      Delivers-answer claims.tenant_id _ _ _
        (list_backups-Yields s redis json uuids postgres claims params) (λ a q. q) w h
  call-Delivers (create req) claims w h =
      Delivers-answer claims.tenant_id _ _ _
        (create_backup-Yields s redis json uuids postgres claims req) (λ a q. q) w h
  call-Delivers (get id) claims w h =
      Delivers-answer claims.tenant_id _ _ _
        (get_backup-Yields s redis json uuids postgres claims id) (λ a q. q) w h
  call-Delivers (update id req) claims w h =
      Delivers-answer claims.tenant_id _ _ _
        (update_backup-Yields s redis json uuids postgres claims id req) (λ a q. q) w h
  call-Delivers (delete id) claims w h =
      Delivers-answer claims.tenant_id _ _ _
        (delete_backup-Yields s redis json uuids postgres claims id) (λ a q. tt) w h
  call-Delivers (analyze id joined) claims w h =
      Delivers-answer claims.tenant_id _ _ _
        (analyze_backup-Yields s redis json uuids postgres claims id joined) (λ a q. q) w h
  call-Delivers (process id) claims w h =
      Delivers-answer claims.tenant_id _ _ _
        (enqueue_backup-Yields s redis json uuids postgres claims id) (λ a q. tt) w h

  module _ (tenant : Uuid) (route : Protected) where
    handler-Delivers : NextDelivers s tenant (run_handler s route)
    unfolding run_handler
    handler-Delivers request claims w e c h =
        subst (λ o. Delivers s tenant (with_claims s route o w)) (sym e)
          (subst (λ t. Delivers s t (call s route claims w)) c (call-Delivers route claims w h))

    merged-Delivers :
        (r : Result (Reply s) (Reply s)) (w : AppState s)
        → Hands s tenant (λ response. BodyOf tenant response.body) (r, w)
        → Delivers s tenant (merged s (r, w))
    merged-Delivers (ok r) w h = h
    merged-Delivers (err r) w h = h

    limited-Delivers : NextDelivers s tenant (limited_next s route)
    limited-Delivers request claims w e c h =
        let (r, w') = rate_limit_middleware s request (run_handler s route) w in
        merged-Delivers r w' (
          Hands-rate_limit_middleware s tenant request claims (run_handler s route) w e c
            handler-Delivers h)

    final-Delivers :
        (r : Result (Reply s) AppError) (w : AppState s)
        → Hands s tenant (λ _. Unit) (r, w)
        → Delivers s tenant (answer s (λ response. response) (r, w))
    unfolding error_response
    final-Delivers (ok r) w h = h
    final-Delivers (err e) w h = h

    pub serve-Delivers :
        (request : Request) (w : AppState s)
        → Bears s (λ claims. claims.tenant_id ≡ tenant) request w
        → CacheIsOwn w
        → Delivers s tenant (serve s (protected route) request w)
    unfolding serve
    serve-Delivers request w b h =
        final-Delivers _ _
          (Hands-auth_middleware s tenant request (limited_next s route) w b limited-Delivers h)
