-- ===== src/Router/Keeps.antt =====
-- router.rs: what a request keeps of the table, if every handler keeps it.
use mathlib.Core.Path.{subst}
use backup_service.Common.{arith, sym, ◌≡◌, Result, ok, err}
use backup_service.Models.{Claims}
use backup_service.Services.{Services}
use backup_service.Db.Runs.{execute-keeps}
use backup_service.Sql.{Table}
use backup_service.Sql.Integrity.{Preserves}
use backup_service.State.{AppState}
use backup_service.State.Access.{OnTable}
use backup_service.Http.{Protected, Public, health, ready, login, protected, public, Request}
use backup_service.Middleware.{rate_limit_middleware}
use backup_service.Middleware.Keeps.{
  Bears, NextKeeps, auth_middleware-keeps, rate_limit_middleware-keeps,
}
use backup_service.Router.{
  Reply, select_one, check_readiness, call, run_handler, with_claims, merged, call_public, serve,
}

module _ (s : Services) (P : Table → Type 0) where
  select_one-keeps : Preserves P select_one
  select_one-keeps = record {
    at = λ a t t' x e h. let same : t ≡ t' = ground arith in subst P same h;
  }

  merged-keeps :
      (r : Result (Reply s) (Reply s)) (w : AppState s)
      → OnTable P w
      → OnTable P (merged s (r, w)).1
  merged-keeps (ok r) w h = h
  merged-keeps (err r) w h = h

  call_public-keeps :
      (route : Public) (w : AppState s) → OnTable P w → OnTable P (call_public s route w).1
  unfolding call_public check_readiness
  call_public-keeps health w h = h
  call_public-keeps ready w h = execute-keeps s.postgres P select_one select_one-keeps w.db h
  call_public-keeps (login req) w h = h

  -- A handler runs on the claims of the request's token.
  module _ (C : Claims → Type 0) (route : Protected)
      (calls : (claims : Claims) (w : AppState s)
        → C claims
        → OnTable P w
        → OnTable P (call s route claims w).1) where
    handler-keeps : NextKeeps s P C (run_handler s route)
    unfolding run_handler
    handler-keeps request claims w e c h =
        subst (λ o. OnTable P (with_claims s route o w).1) (sym e) (calls claims w c h)

    limited-keeps :
        NextKeeps s P C
          (λ request w. merged s (rate_limit_middleware s request (run_handler s route) w))
    limited-keeps request claims w e c h =
        let (r, w') = rate_limit_middleware s request (run_handler s route) w in
        merged-keeps r w' (
          rate_limit_middleware-keeps s P C request claims (run_handler s route) w e c handler-keeps
            h)

    pub serve-keeps :
        (request : Request) (w : AppState s)
        → Bears s C request w
        → OnTable P w
        → OnTable P (serve s (protected route) request w).1
    unfolding serve
    serve-keeps request w b h = auth_middleware-keeps s P C request _ w b limited-keeps h

  pub serve_public-keeps :
      (route : Public) (request : Request) (w : AppState s)
      → OnTable P w
      → OnTable P (serve s (public route) request w).1
  unfolding serve
  serve_public-keeps route request w h = call_public-keeps route w h
