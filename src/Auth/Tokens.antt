-- ===== src/Auth/Tokens.antt =====
-- middleware/auth.rs and handlers/auth.rs: what a login gives, and where its token is accepted.
use backup_service.Common.{
  ℕ, ◌+◌, ◌≤◌, ◌≡◌, refl, ap, String, Option, none, some, List, [], Result, ok, err, map_err, arith,
  unwrap_or,
}
use backup_service.Models.{Claims}
use backup_service.Errors.{AppError, jwt}
use backup_service.Services.{Jwt}
use backup_service.Services.Laws.{IsJwt}
use backup_service.Auth.{
  LoginRequest, LoginResponse, hours, demo_tenant, new_claims, accepted_roles, create_token,
  verify_token, login_response, login_as, login,
}

-- The claims in the token of a login at `issued`.
abbrev pub login_claims : ℕ → LoginRequest → Claims
login_claims issued req =
    new_claims issued req.username demo_tenant (unwrap_or (accepted_roles req) [])

abbrev token_of : Result LoginResponse AppError → String
token_of (ok r) = r.token
token_of (err _) = ""

module _ (j : Jwt) (laws : IsJwt j) where
  verify-login_response :
      (issued now : ℕ) (secret : String) (req : LoginRequest) (roles : List String)
      (response : LoginResponse)
      → accepted_roles req ≡ some roles
      → now ≤ issued + hours 24
      → login_response j (create_token j issued req.username demo_tenant roles secret) ≡ ok response
      → verify_token j now response.token secret ≡ ok (login_claims issued req)
  unfolding create_token verify_token
  verify-login_response issued now secret req roles response found soon e =
      go (j.encode claims secret) refl e
    where
      claims : Claims
      claims = new_claims issued req.username demo_tenant roles

      go :
          (r : Result String String)
          → j.encode claims secret ≡ r
          → login_response j (map_err jwt r) ≡ ok response
          → map_err jwt (j.decode now response.token secret) ≡ ok (login_claims issued req)
      go (err x) made e = absurd (ground (arith, e))
      go (ok t) made e =
          let same : t ≡ response.token = ap token_of e in
          rw (← same, found, laws.decode_encode claims secret t now made soon)

  -- If a token reads back until it expires, the token that a login returns reads, for 24 hours
  -- and with the same secret, as the claims of the user, the demonstration tenant and the roles
  -- of the account.
  pub verify_token-login :
      (issued now : ℕ) (secret : String) (req : LoginRequest) (response : LoginResponse)
      → login j issued secret req ≡ ok response
      → now ≤ issued + hours 24
      → verify_token j now response.token secret ≡ ok (login_claims issued req)
  unfolding login
  verify_token-login issued now secret req response e soon = go (accepted_roles req) refl e
    where
      go :
          (o : Option (List String))
          → accepted_roles req ≡ o
          → login_as j issued secret req o ≡ ok response
          → verify_token j now response.token secret ≡ ok (login_claims issued req)
      go none found e = absurd (ground (arith, e))
      go (some roles) found e =
          verify-login_response issued now secret req roles response found soon e
