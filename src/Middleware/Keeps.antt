-- ===== src/Middleware/Keeps.antt =====
-- middleware/: what the layers keep of the table. What comes behind them runs, if at all, on a request
-- with the claims of its token.
use mathlib.Core.Path.{subst}
use backup_service.Common.{◌≡◌, refl, sym, String, Option, none, some, Result, ok, err}
use backup_service.Models.{Claims}
use backup_service.Errors.{AppError}
use backup_service.RateLimit.{RateLimitConfig, RateLimitInfo, check_and_increment}
use backup_service.Auth.{verify_token}
use backup_service.Services.{Services}
use backup_service.Sql.{Table}
use backup_service.State.{AppState}
use backup_service.State.Access.{OnTable}
use backup_service.Http.{Request}
use backup_service.Middleware.{
  Next, bearer, run_token, run_verified, run_limited, run_counted, auth_middleware,
  rate_limit_middleware,
}

-- The claims that the request's token has at the state, if it has any, are such as `C` says.
abbrev pub Bears : (s : Services) → (Claims → Type 0) → Request → AppState s → Type 0
Bears s C request w =
    (token : String) (claims : Claims)
    → bearer request ≡ some token
    → verify_token s.jwt w.utc token w.config.jwt_secret ≡ ok claims
    → C claims

module _ (s : Services) (P : Table → Type 0) (C : Claims → Type 0) where
  -- The rest of the chain keeps the property, at every request with such claims and every state.
  abbrev pub NextKeeps : Next s → Type 0
  NextKeeps next =
      (request : Request) (claims : Claims) (w : AppState s)
      → request.claims ≡ some claims
      → C claims
      → OnTable P w
      → OnTable P (next request w).1

  run_verified-keeps :
      (r : Result Claims AppError) (request : Request) (next : Next s) (w : AppState s)
      → ((claims : Claims) → r ≡ ok claims → C claims)
      → NextKeeps next
      → OnTable P w
      → OnTable P (run_verified s r request next w).1
  run_verified-keeps (err e) request next w c k h = h
  run_verified-keeps (ok claims) request next w c k h =
      k (record request { claims = some claims }) claims w refl (c claims refl) h

  run_token-keeps :
      (o : Option String) (request : Request) (next : Next s) (w : AppState s)
      → ((token : String) (claims : Claims)
          → o ≡ some token
          → verify_token s.jwt w.utc token w.config.jwt_secret ≡ ok claims
          → C claims)
      → NextKeeps next
      → OnTable P w
      → OnTable P (run_token s o request next w).1
  run_token-keeps none request next w c k h = h
  run_token-keeps (some token) request next w c k h =
      run_verified-keeps (verify_token s.jwt w.utc token w.config.jwt_secret) request next w
        (λ claims e. c token claims refl e) k h

  pub auth_middleware-keeps :
      (request : Request) (next : Next s) (w : AppState s)
      → Bears s C request w
      → NextKeeps next
      → OnTable P w
      → OnTable P (auth_middleware s request next w).1
  unfolding auth_middleware
  auth_middleware-keeps request next w c k h = run_token-keeps (bearer request) request next w c k h

  run_counted-keeps :
      (r : Result RateLimitInfo (Unit {0})) (config : RateLimitConfig) (request : Request)
      (claims : Claims) (next : Next s) (w : AppState s)
      → request.claims ≡ some claims
      → C claims
      → NextKeeps next
      → OnTable P w
      → OnTable P (run_counted s r config request next w).1
  run_counted-keeps (err _) config request claims next w e c k h = h
  run_counted-keeps (ok info) config request claims next w e c k h = k request claims w e c h

  run_limited-keeps :
      (request : Request) (claims : Claims) (next : Next s) (w : AppState s)
      → request.claims ≡ some claims
      → C claims
      → NextKeeps next
      → OnTable P w
      → OnTable P (run_limited s (some claims) request next w).1
  run_limited-keeps request claims next w e c k h =
      let config = w.config.rate_limit in
      let (verdict, counters) =
        check_and_increment claims.tenant_id config w.instant w.rate_limiter in
      run_counted-keeps verdict config request claims next (record w { rate_limiter = counters }) e
        c k h

  pub rate_limit_middleware-keeps :
      (request : Request) (claims : Claims) (next : Next s) (w : AppState s)
      → request.claims ≡ some claims
      → C claims
      → NextKeeps next
      → OnTable P w
      → OnTable P (rate_limit_middleware s request next w).1
  unfolding rate_limit_middleware
  rate_limit_middleware-keeps request claims next w e c k h =
      subst (λ o. OnTable P (run_limited s o request next w).1) (sym e)
        (run_limited-keeps request claims next w e c k h)
