-- ===== src/Middleware/Confidential.antt =====
-- middleware/: the layers pass on a response that belongs to a tenant, and answer for themselves
-- without any tenant's data.
use mathlib.Core.Path.{subst}
use backup_service.Common.{◌≡◌, refl, sym, String, Option, none, some, Result, ok, err, All}
use backup_service.Models.{Uuid, Claims}
use backup_service.Errors.{AppError}
use backup_service.RateLimit.{RateLimitConfig, RateLimitInfo, check_and_increment}
use backup_service.Auth.{verify_token}
use backup_service.Services.{Services}
use backup_service.State.{AppState}
use backup_service.Http.{Request, Response, Body, backup, backups}
use backup_service.Backups.Rules.{CacheIsOwn}
use backup_service.Middleware.{
  Next, bearer, run_token, run_verified, run_limited, run_counted, auth_middleware,
  rate_limit_middleware, with_limits, too_many_requests,
}
use backup_service.Middleware.Keeps.{Bears}

-- Every backup in a body is the tenant's.
abbrev pub BodyOf : {F : Type 0} → Uuid → Body F → Type 0
BodyOf tenant (backup r) = r.tenant_id ≡ tenant
BodyOf tenant (backups page) = All (λ r. r.tenant_id ≡ tenant) page.items
BodyOf tenant _ = Unit

module _ (s : Services) (tenant : Uuid) where
  abbrev pub Delivers : Response s.floats.F64 × AppState s → Type 0
  Delivers (response, w) = BodyOf tenant response.body × CacheIsOwn w

  -- The same where a layer may answer with another kind of result.
  abbrev pub Hands :
      {E : Type 0} → (E → Type 0) → Result (Response s.floats.F64) E × AppState s → Type 0
  Hands Q (ok response, w) = BodyOf tenant response.body × CacheIsOwn w
  Hands Q (err e, w) = Q e × CacheIsOwn w

  abbrev pub NextDelivers : Next s → Type 0
  NextDelivers next =
      (request : Request) (claims : Claims) (w : AppState s)
      → request.claims ≡ some claims
      → claims.tenant_id ≡ tenant
      → CacheIsOwn w
      → Delivers (next request w)

  Hands-run_verified :
      (r : Result Claims AppError) (request : Request) (next : Next s) (w : AppState s)
      → ((claims : Claims) → r ≡ ok claims → claims.tenant_id ≡ tenant)
      → NextDelivers next
      → CacheIsOwn w
      → Hands (λ _. Unit) (run_verified s r request next w)
  Hands-run_verified (err e) request next w c k h = (tt, h)
  Hands-run_verified (ok claims) request next w c k h =
      k (record request { claims = some claims }) claims w refl (c claims refl) h

  Hands-run_token :
      (o : Option String) (request : Request) (next : Next s) (w : AppState s)
      → ((token : String) (claims : Claims)
          → o ≡ some token
          → verify_token s.jwt w.utc token w.config.jwt_secret ≡ ok claims
          → claims.tenant_id ≡ tenant)
      → NextDelivers next
      → CacheIsOwn w
      → Hands (λ _. Unit) (run_token s o request next w)
  Hands-run_token none request next w c k h = (tt, h)
  Hands-run_token (some token) request next w c k h =
      Hands-run_verified (verify_token s.jwt w.utc token w.config.jwt_secret) request next w
        (λ claims e. c token claims refl e) k h

  pub Hands-auth_middleware :
      (request : Request) (next : Next s) (w : AppState s)
      → Bears s (λ claims. claims.tenant_id ≡ tenant) request w
      → NextDelivers next
      → CacheIsOwn w
      → Hands (λ _. Unit) (auth_middleware s request next w)
  unfolding auth_middleware
  Hands-auth_middleware request next w c k h = Hands-run_token (bearer request) request next w c k h

  Hands-run_counted :
      (r : Result RateLimitInfo (Unit {0})) (config : RateLimitConfig) (request : Request)
      (claims : Claims) (next : Next s) (w : AppState s)
      → request.claims ≡ some claims
      → claims.tenant_id ≡ tenant
      → NextDelivers next
      → CacheIsOwn w
      → Hands (λ response. BodyOf tenant response.body) (run_counted s r config request next w)
  unfolding with_limits too_many_requests
  Hands-run_counted (err _) config request claims next w e c k h = (tt, h)
  Hands-run_counted (ok info) config request claims next w e c k h = k request claims w e c h

  pub Hands-rate_limit_middleware :
      (request : Request) (claims : Claims) (next : Next s) (w : AppState s)
      → request.claims ≡ some claims
      → claims.tenant_id ≡ tenant
      → NextDelivers next
      → CacheIsOwn w
      → Hands (λ response. BodyOf tenant response.body) (rate_limit_middleware s request next w)
  unfolding rate_limit_middleware
  Hands-rate_limit_middleware request claims next w e c k h =
      let config = w.config.rate_limit in
      let (verdict, counters) =
        check_and_increment claims.tenant_id config w.instant w.rate_limiter in
      subst (λ o. Hands (λ response. BodyOf tenant response.body) (run_limited s o request next w))
        (sym e)
        (Hands-run_counted verdict config request claims next (record w { rate_limiter = counters })
          e c k h)
