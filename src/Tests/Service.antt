-- ===== src/Tests/Service.antt =====
-- The theorems on requests and on the whole service, on concrete runs.
use backup_service.Common.{ℕ, ◌≡◌, refl, String, none, ok, List, [], ◌∷◌, arith}
use backup_service.Common.Int.{pos}
use backup_service.Models.{Claims, ListParams}
use backup_service.Errors.StatusCode
use backup_service.Auth.{verify_token, LoginRequest, login, accepted_roles, create_token}
use backup_service.Auth.Tokens.{verify_token-login, login_claims}
use backup_service.SourcePath.{validate_source_path}
use backup_service.SourcePath.Accepted.{validate_source_path_iff}
use backup_service.Sql.Tenancy.{rows_of}
use backup_service.State.{AppState}
use backup_service.Backups.Rules.{CacheIsOwn}
use backup_service.Http.{list, delete, get, protected, Request}
use backup_service.Middleware.{bearer}
use backup_service.Middleware.Keeps.{Bears}
use backup_service.Middleware.Confidential.{BodyOf}
use backup_service.Router.{serve}
use backup_service.Router.Access.{serve_refused}
use backup_service.Router.Tenancy.{serve-rows_of}
use backup_service.System.{Operation, http, status_update, clock, perform_all}
use backup_service.System.Integrity.{IsSound, perform_all-IsSound}
use backup_service.System.Confidential.{serve-confidential}
use backup_service.Tests.Codec.{write_only_self, Claims_discrete}
use backup_service.Tests.Fixtures.{
  services, world, request, config, claims, jwt, jwt_laws, redis_laws, json_laws, uuids_laws,
  postgres_laws,
}

-- Every token that reads is of tenant 1.
tenant_1 :
    (now : ℕ) (token secret : String) (c : Claims)
    → verify_token jwt now token secret ≡ ok c
    → c.tenant_id ≡ 1
unfolding verify_token
tenant_1 now token secret c e = ground (arith, e)

Bears-tenant_1 : (r : Request) (w : AppState services) → Bears services (λ c. c.tenant_id ≡ 1) r w
Bears-tenant_1 r w token c e v = tenant_1 w.utc token w.config.jwt_secret c v

world-CacheIsOwn : CacheIsOwn world
world-CacheIsOwn = record { owned = λ tenant json items total found parsed. cc }

abbrev page : ListParams
page = record { offset = pos 0; limit = pos 20; status = none }

-- A listing that fills the cache, and a change by the worker.
abbrev history : List (Operation services)
history =
    http (protected (list page)) request
    ∷ status_update (record { backup_id = "1111111"; status = "running" })
    ∷ clock 5 2001
    ∷ []

serve-confidential_example :
    BodyOf 1
      (serve services (protected (list page)) request (perform_all services history world)).0.body
serve-confidential_example =
    serve-confidential services redis_laws json_laws uuids_laws postgres_laws 1 history world
      (list page) request world-CacheIsOwn
      (Bears-tenant_1 request (perform_all services history world))

world-IsSound : IsSound world.db.table
unfolding validate_source_path
world-IsSound = (
  record { statuses = (refl, (refl, tt)); ids = (((omega arith), tt), (tt, tt)) },
  ((validate_source_path_iff "/srv").0 refl, ((validate_source_path_iff "/home/x").0 refl, tt)),
)

perform_all-IsSound_example : IsSound (perform_all services history world).db.table
perform_all-IsSound_example = perform_all-IsSound services history world world-IsSound

serve-rows_of_example :
    rows_of 2 (serve services (protected (delete 8)) request world).1.db.table
    ≡ rows_of 2 world.db.table
serve-rows_of_example =
    serve-rows_of services 2 (delete 8) request world (λ token c e v d.
      (let one = Bears-tenant_1 request world token c e v in omega (arith, one, d)))

abbrev anonymous : Request
anonymous = record { authorization = none; claims = none }

anonymous-Bears : Bears services (λ _. ⊥) anonymous world
unfolding bearer
anonymous-Bears token c e v = cc

serve_refused_example :
    ((serve services (protected (get 7)) anonymous world).0.code ≡ StatusCode.unauthorized)
    × ((serve services (protected (get 7)) anonymous world).1 ≡ world)
serve_refused_example = serve_refused services (get 7) anonymous world anonymous-Bears

abbrev full : AppState services
full = record world {
  config = record config { rate_limit = record { max_requests = 0; window_secs = 60 } };
}

abbrev user : LoginRequest
user = record { username = "user"; password = "user" }

user-login :
    login jwt 1000 "s" user
    ≡ ok (record { token = "token.s"; token_type = "Bearer"; expires_in = 86400 })
unfolding login accepted_roles create_token
user-login = rw (write_only_self Claims_discrete claims "token.s")

verify_token-login_example : verify_token jwt 5000 "token.s" "s" ≡ ok (login_claims 1000 user)
verify_token-login_example =
    verify_token-login jwt jwt_laws 1000 5000 "s" user
      (record { token = "token.s"; token_type = "Bearer"; expires_in = 86400 }) user-login
      (omega arith)
