-- ===== src/Auth.antt =====
-- crates/backup-service/src/handlers/auth.rs and the tokens of middleware/auth.rs.
pub mod Tokens
use Prim.Native.String
use text.Mathlib.Text.{◌==◌ as str_eq}
use backup_service.Common.{
  ℕ, ◌+◌, ◌*◌, String, Bool, ◌&&◌, List, [], ◌∷◌, Result, ok, err, map_err, Option, none, some,
  if◌then◌else◌,
}
use backup_service.Models.{Uuid, Claims}
use backup_service.Errors.{AppError, unauthorized, jwt}
use backup_service.Services.{Jwt}

pub record LoginRequest : Type 0 where
  pub username : String
  pub password : String

pub record LoginResponse : Type 0 where
  pub token : String
  pub token_type : String
  pub expires_in : ℕ

abbrev pub hours : ℕ → ℕ
hours n = n * 3600

-- The tenant of both demonstration accounts, 00000000-0000-0000-0000-000000000001.
abbrev pub demo_tenant : Uuid
demo_tenant = 1

-- The claims of a token made at `now`, in seconds.
abbrev pub new_claims : ℕ → String → Uuid → List String → Claims
new_claims now user_id tenant_id roles = record {
  sub = user_id;
  tenant_id = tenant_id;
  roles = roles;
  exp = now + hours 24;
  iat = now;
}

-- The roles of the accounts that the login accepts.
unfoldable pub accepted_roles : LoginRequest → Option (List String)
accepted_roles req =
    if str_eq req.username "admin" && str_eq req.password "admin"
    then some ("admin" ∷ "user" ∷ [])
    else if str_eq req.username "user" && str_eq req.password "user"
    then some ("user" ∷ [])
    else none

module _ (j : Jwt) where
  unfoldable pub create_token : ℕ → String → Uuid → List String → String → Result String AppError
  create_token now user_id tenant_id roles secret =
      map_err jwt (j.encode (new_claims now user_id tenant_id roles) secret)

  unfoldable pub verify_token : ℕ → String → String → Result Claims AppError
  verify_token now token secret = map_err jwt (j.decode now token secret)

  abbrev login_response : Result String AppError → Result LoginResponse AppError
  login_response (err e) = err e
  login_response (ok token) =
      ok (record { token = token; token_type = "Bearer"; expires_in = 86400 })

  abbrev login_as : ℕ → String → LoginRequest → Option (List String) → Result LoginResponse AppError
  login_as now jwt_secret req none = err (unauthorized "invalid credentials")
  login_as now jwt_secret req (some roles) =
      login_response (create_token now req.username demo_tenant roles jwt_secret)

  -- The secret is that of the configuration.
  unfoldable pub login : ℕ → String → LoginRequest → Result LoginResponse AppError
  login now jwt_secret req = login_as now jwt_secret req (accepted_roles req)
