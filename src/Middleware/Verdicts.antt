-- ===== src/Middleware/Verdicts.antt =====
-- middleware/: what each layer does with a request, by its verdict.
use backup_service.Common.{◌≡◌, refl, String, Option, none, some, Result, ok, err, map_err, ◌≢◌}
use backup_service.Models.{Claims}
use backup_service.Errors.{AppError, unauthorized, jwt}
use backup_service.RateLimit.{check_and_increment}
use backup_service.Auth.{verify_token}
use backup_service.Services.{Services}
use backup_service.State.{AppState}
use backup_service.Http.{Request, Response}
use backup_service.Middleware.{
  Next, bearer, run_token, run_verified, auth_middleware, rate_limit_middleware, too_many_requests,
}
use backup_service.Middleware.Keeps.{Bears}

-- The errors that `into_response` answers with 401.
abbrev pub IsRefusal : AppError → Type 0
IsRefusal (unauthorized msg) = Unit
IsRefusal (jwt e) = Unit
IsRefusal e = ⊥

module _ (s : Services) where
  -- The request is answered with a refusal, at the state as it was.
  abbrev IsRefused : AppState s → Result (Response s.floats.F64) AppError × AppState s → Type 0
  IsRefused w r = (e : AppError) × IsRefusal e × (r ≡ (err e, w))

  IsRefused-run_verified :
      (r : Result Claims String) (request : Request) (next : Next s) (w : AppState s)
      → ((claims : Claims) → map_err jwt r ≢ ok claims)
      → IsRefused w (run_verified s (map_err jwt r) request next w)
  IsRefused-run_verified (err e) request next w never = (jwt e, tt, refl)
  IsRefused-run_verified (ok claims) request next w never = absurd (never claims refl)

  IsRefused-run_token :
      (o : Option String) (request : Request) (next : Next s) (w : AppState s)
      → ((token : String) (claims : Claims)
          → o ≡ some token
          → verify_token s.jwt w.utc token w.config.jwt_secret ≢ ok claims)
      → IsRefused w (run_token s o request next w)
  unfolding verify_token
  IsRefused-run_token none request next w never =
      (unauthorized "missing or invalid Authorization header", tt, refl)
  IsRefused-run_token (some token) request next w never =
      IsRefused-run_verified (s.jwt.decode w.utc token w.config.jwt_secret) request next w
        (λ claims e. never token claims refl e)

  pub auth_middleware_refused :
      (request : Request) (next : Next s) (w : AppState s)
      → Bears s (λ _. ⊥) request w
      → (e : AppError) × IsRefusal e × (auth_middleware s request next w ≡ (err e, w))
  unfolding auth_middleware
  auth_middleware_refused request next w never =
      IsRefused-run_token (bearer request) request next w
        (λ token claims e v. never token claims e v)

  pub auth_middleware_verified :
      (request : Request) (next : Next s) (w : AppState s) (token : String) (claims : Claims)
      → bearer request ≡ some token
      → verify_token s.jwt w.utc token w.config.jwt_secret ≡ ok claims
      → auth_middleware s request next w ≡ (
        ok (next (record request { claims = some claims }) w).0,
        (next (record request { claims = some claims }) w).1,
      )
  unfolding auth_middleware
  auth_middleware_verified request next w token claims e v = rw (e, v)

  -- The state with the counters after the check of a tenant.
  abbrev pub counted_state : Claims → AppState s → AppState s
  counted_state claims w = record w {
    rate_limiter =
        (check_and_increment claims.tenant_id w.config.rate_limit w.instant w.rate_limiter).1;
  }

  pub rate_limit_middleware_limited :
      (request : Request) (next : Next s) (w : AppState s) (claims : Claims)
      → (check_and_increment claims.tenant_id w.config.rate_limit w.instant w.rate_limiter).0
        ≡ err tt
      → rate_limit_middleware s (record request { claims = some claims }) next w
        ≡ (err (too_many_requests w.config.rate_limit), counted_state claims w)
  unfolding rate_limit_middleware
  rate_limit_middleware_limited request next w claims e = rw e
