-- ===== src/Http.antt =====
-- Requests and responses as the router and the middleware see them: the `Authorization` header, the
-- extension with the claims, and the endpoint that axum's routing and extractors have found.
use text.Mathlib.Text.{◌==◌ as str_eq}
use backup_service.Common.{ℕ, String, Bool, not, Option, Result, ok, err, List, [], ◌∷◌, select}
use backup_service.Models.{
  Uuid, CreateBackupRequest, UpdateBackupRequest, BackupResponse, ListParams, ListResponse, Claims,
}
use backup_service.Errors.{AppError, into_response}
use backup_service.Auth.{LoginRequest, LoginResponse}

-- The routes of `create_router`, with what their extractors read. `analyze` also says how its
-- blocking task ends.
pub data Protected : Type 0 where
  list : ListParams → Protected
  create : CreateBackupRequest → Protected
  get : Uuid → Protected
  update : Uuid → UpdateBackupRequest → Protected
  delete : Uuid → Protected
  analyze : Uuid → Result (Unit {0}) String → Protected
  process : Uuid → Protected

pub data Public : Type 0 where
  health : Public
  ready : Public
  login : LoginRequest → Public

pub data Endpoint : Type 0 where
  protected : Protected → Endpoint
  public : Public → Endpoint

-- The header's value is `none` where `to_str` fails on it.
pub record Request : Type 0 where
  pub authorization : Option (Option String)
  pub claims : Option Claims

pub data Body (F : Type 0) : Type 0 where
  no_content : Body F
  backup : BackupResponse F → Body F
  backups : ListResponse (BackupResponse F) → Body F
  enqueued : Uuid → Body F
  error : String → ℕ → Body F
  limited : String → ℕ → (retry_after_secs : ℕ) → Body F
  token : LoginResponse → Body F
  alive : Body F
  plain : String → Body F
  readiness : (status : String) (database redis : Bool) → Body F

pub record Response (F : Type 0) : Type 0 where
  pub code : ℕ
  pub headers : List (String × String)
  pub body : Body F

-- `headers.insert(name, value)`: a header of that name is replaced.
unfoldable pub insert_header : String → String → List (String × String) → List (String × String)
insert_header name value headers = (name, value) ∷ select (λ h. not (str_eq h.0 name)) headers

-- `IntoResponse` of a handler's result.
unfoldable pub error_response : {F : Type 0} → AppError → Response F
error_response e =
    let r = into_response e in record { code = r.code; headers = []; body = error r.error r.status }

abbrev pub respond : {A F : Type 0} → (A → Response F) → Result A AppError → Response F
respond f (ok a) = f a
respond f (err e) = error_response e
