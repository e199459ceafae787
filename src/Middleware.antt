-- ===== src/Middleware.antt =====
-- crates/backup-service/src/middleware/: the layers of the protected routes.
pub mod Confidential
pub mod Keeps
pub mod Verdicts
use backup_service.Common.{
  ℕ, String, Option, none, some, Result, ok, err, List, [], ◌∷◌, and_then, if◌then◌else◌,
}
use backup_service.Common.Decimal.{to_string}
use backup_service.Common.Text.{strip_prefix}
use backup_service.Models.{Uuid, Claims}
use backup_service.Errors.{AppError, unauthorized}
use backup_service.Errors.StatusCode
use backup_service.Auth.{verify_token}
use backup_service.RateLimit.{RateLimitConfig, RateLimitInfo, check_and_increment}
use backup_service.Services.{Services}
use backup_service.State.{AppState}
use backup_service.Http.{Request, Response, limited, insert_header}

-- `next.run(request)`
abbrev pub Next : Services → Type 0
Next s = Request → AppState s → Response s.floats.F64 × AppState s

-- The text behind `Bearer ` in the header, if there is a header and it is a text.
unfoldable pub bearer : Request → Option String
bearer request = and_then (and_then request.authorization (λ v. v)) (strip_prefix "Bearer ")

-- `X-RateLimit-…` on a response that was let through.
unfoldable pub with_limits : {F : Type 0} → RateLimitInfo → Response F → Response F
with_limits info response = record response {
  headers = insert_header "X-RateLimit-Reset" (to_string info.reset_secs) (
      insert_header "X-RateLimit-Remaining" (to_string info.remaining)
        (insert_header "X-RateLimit-Limit" (to_string info.limit) response.headers));
}

unfoldable pub too_many_requests : {F : Type 0} → RateLimitConfig → Response F
too_many_requests config = record {
  code = StatusCode.too_many_requests;
  headers =
      ("Retry-After", to_string config.window_secs)
      ∷ ("X-RateLimit-Limit", to_string config.max_requests)
      ∷ ("X-RateLimit-Remaining", "0")
      ∷ [];
  body = limited "rate limit exceeded" 429 config.window_secs;
}

module _ (s : Services) where
  abbrev run_verified :
      Result Claims AppError
      → Request
      → Next s
      → AppState s
      → Result (Response s.floats.F64) AppError × AppState s
  run_verified (err e) request next w = (err e, w)
  run_verified (ok claims) request next w =
      let (response, w') = next (record request { claims = some claims }) w in (ok response, w')

  abbrev run_token :
      Option String
      → Request
      → Next s
      → AppState s
      → Result (Response s.floats.F64) AppError × AppState s
  run_token none request next w = (err (unauthorized "missing or invalid Authorization header"), w)
  run_token (some token) request next w =
      run_verified (verify_token s.jwt w.utc token w.config.jwt_secret) request next w

  -- The clock and the secret are read before the request goes on.
  unfoldable pub auth_middleware :
      Request → Next s → AppState s → Result (Response s.floats.F64) AppError × AppState s
  auth_middleware request next w = run_token (bearer request) request next w

  abbrev run_counted :
      Result RateLimitInfo (Unit {0})
      → RateLimitConfig
      → Request
      → Next s
      → AppState s
      → Result (Response s.floats.F64) (Response s.floats.F64) × AppState s
  run_counted (ok info) config request next w =
      let (response, w') = next request w in (ok (with_limits info response), w')
  run_counted (err _) config request next w = (err (too_many_requests config), w)

  abbrev run_limited :
      Option Claims
      → Request
      → Next s
      → AppState s
      → Result (Response s.floats.F64) (Response s.floats.F64) × AppState s
  run_limited none request next w = let (response, w') = next request w in (ok response, w')
  run_limited (some claims) request next w =
      let config = w.config.rate_limit in
      let (verdict, counters) =
        check_and_increment claims.tenant_id config w.instant w.rate_limiter in
      run_counted verdict config request next (record w { rate_limiter = counters })

  unfoldable pub rate_limit_middleware :
      Request
      → Next s
      → AppState s
      → Result (Response s.floats.F64) (Response s.floats.F64) × AppState s
  rate_limit_middleware request next w = run_limited request.claims request next w
