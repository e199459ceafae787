-- ===== src/Router/Access.antt =====
-- router.rs: requests that reach no handler.
use backup_service.Common.{◌≡◌, refl}
use backup_service.Errors.{AppError, unauthorized, jwt, into_response}
use backup_service.Errors.StatusCode
use backup_service.Services.{Services}
use backup_service.State.{AppState}
use backup_service.Http.{Protected, protected, Request, error_response}
use backup_service.Middleware.Keeps.{Bears}
use backup_service.Middleware.Verdicts.{IsRefusal, auth_middleware_refused}
use backup_service.Router.{limited_next, serve}

refusal_code : (e : AppError) → IsRefusal e → (into_response e).code ≡ StatusCode.unauthorized
unfolding into_response
refusal_code (unauthorized msg) h = refl
refusal_code (jwt e) h = refl
refusal_code _ h = absurd h

module _ (s : Services) (route : Protected) (request : Request) (w : AppState s) where
  -- A protected request without a token that reads is answered with 401 and leaves the whole
  -- state as it was.
  pub serve_refused :
      Bears s (λ _. ⊥) request w
      → ((serve s (protected route) request w).0.code ≡ StatusCode.unauthorized)
        × ((serve s (protected route) request w).1 ≡ w)
  unfolding serve error_response
  serve_refused never =
      let (e, kind, refused) = auth_middleware_refused s request (limited_next s route) w never in
      (rw refused (refusal_code e kind), rw refused)
