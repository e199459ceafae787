-- ===== src/Errors/Leaks.antt =====
-- errors.rs: what a client can learn from the response to an error.
use backup_service.Common.{String, ◌≡◌, ◌≤◌, ◌<◌, refl, arith}
use backup_service.Errors.{AppError, database, redis, jwt, internal, into_response}

-- Two errors of another crate of the same kind get the same response, whatever their texts: the
-- response does not depend on the text.
pub data SameKind : AppError → AppError → Type 0 where
  databases : (e f : String) → SameKind (database e) (database f)
  redises : (e f : String) → SameKind (redis e) (redis f)
  jwts : (e f : String) → SameKind (jwt e) (jwt f)
  internals : (e f : String) → SameKind (internal e) (internal f)

-- The responses to two database errors, two Redis errors, two JWT errors or two internal errors are
-- equal: none shows the text of the error.
into_response-SameKind : {e f : AppError} → SameKind e f → into_response e ≡ into_response f
unfolding into_response
into_response-SameKind (databases e f) = refl
into_response-SameKind (redises e f) = refl
into_response-SameKind (jwts e f) = refl
into_response-SameKind (internals e f) = refl

-- The response to every error has a status from 400 to 599, and its body repeats it.
into_response_status :
    (e : AppError)
    → ((into_response e).status ≡ (into_response e).code)
      × (400 ≤ (into_response e).code)
      × ((into_response e).code < 600)
unfolding into_response
into_response_status e = ground arith
