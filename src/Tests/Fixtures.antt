-- ===== src/Tests/Fixtures.antt =====
-- Services that behave as documented, small enough to compute with.
use Prim.Native.String
use text.Mathlib.Text.{◌==◌ as str_eq}
use text.Mathlib.TextEquality.{eq_iff}
use text.Mathlib.TextLemmas.{nil-append, cons-append}
use mathlib.Core.Path.{subst}
use backup_service.Tests.Codec.{
  Backup_discrete, Claims_discrete, Page_discrete, write_only, read_only, read-write_only,
  write_only_lem,
}
use mathlib.Core.List.Perm
use backup_service.Common.{
  ℕ, zero, suc, ◌+◌, ◌-◌, ◌*◌, ◌/◌, ◌≤◌, ◌≡◌, ◌≢◌, refl, sym, ap, ◌∙◌, empty, String, true, false,
  Option, none, some, Result, ok, err, [], ◌∷◌, ltb, leb, if◌then◌else◌, Bool-cases, inl, inr,
  arith,
}
use backup_service.Common.Int.{pos}
use backup_service.Models.{Backup, Claims}
use backup_service.Jobs.{BackupJob}
use backup_service.Tests.Broker.{rabbit, new_broker}
use backup_service.Entropy.{Floats}
use backup_service.Config.{AppConfig}
use backup_service.Cache
use backup_service.State.{AppState}
use backup_service.Http.{Request}
use backup_service.Services.{up, Postgres, Redis, Json, Uuids, Jwt, Services}
use backup_service.Services.Laws.{IsRedis, IsJson, IsUuids, IsPostgres, IsJwt}

-- Statement `n` runs at time `n`, and rows get the ids from 100 on.
abbrev pub postgres : Postgres
postgres = record {
  Server = ℕ;
  connect = λ options url n. (ok tt, n);
  attempt = λ n. record { link = up; now = n; uuid = 100 + n };
  next = suc;
  order_by_created_at_desc = λ rows. rows;
  unique_violation = "unique";
  check_violation = "check";
  negative_limit = "limit";
  undefined_table = "undefined";
  scripts = ok tt;
}

pub postgres_laws : IsPostgres postgres
postgres_laws = record { order_perm = λ rows. Perm.refl rows }

-- A store whose keys do not expire.
abbrev pub redis : Redis
redis = record {
  Server = String → Option String;
  get = λ k s. (elim (s k) [ none ↦ err "nil" | some v ↦ ok v ], s);
  set_ex = λ k v ttl s. (ok tt, λ j. if str_eq j k then some v else s j);
  del = λ k s. (ok tt, λ j. if str_eq j k then none else s j);
  ping = λ s. (ok "PONG", s);
  stored = λ s k. s k;
}

different : (j k : String) → k ≢ j → str_eq j k ≡ false
different j k ne = elim (Bool-cases (str_eq j k)) [
  | inl same ↦ absurd (ne (sym ((eq_iff j k).0 same)))
  | inr other ↦ other
]

found_only :
    (o : Option String) (v : String)
    → (elim o as (λ _. Result String String) [ none ↦ err "nil" | some v ↦ ok v ]) ≡ ok v
    → o ≡ some v
found_only none v e = cc
found_only (some w) v e = cc

pub redis_laws : IsRedis redis
redis_laws = record {
  get_value = λ k v s s' e. found_only (s k) v (ap (λ p. p.0) e);
  get_keeps = λ k j s. inr refl;
  set_ex_self = λ k v ttl s. inr (rw ((eq_iff k k).1 refl));
  set_ex_ne = λ k j v ttl s ne. inr (rw (different j k ne));
  del_keeps = λ k j s. elim (Bool-cases (str_eq j k)) [
    | inl same ↦ inl (rw same)
    | inr other ↦ inr (rw other)
  ];
  ping_keeps = λ j s. inr refl;
  del_ok = λ k s s' e. ap (λ p. p.1 k) (sym e) ∙ rw ((eq_iff k k).1 refl);
}

-- The row, the page and the job that the codec knows.
abbrev pub row : Backup
row = record {
  id = 7;
  tenant_id = 1;
  source_path = "/srv";
  size_bytes = pos 0;
  status = "pending";
  encryption_enabled = true;
  created_at = 0;
  updated_at = 0;
}

abbrev pub job : BackupJob
job = record { backup_id = 7; tenant_id = 1; source_path = "/srv"; encryption_enabled = true }

abbrev pub json : Json
json = record {
  backup_to_string = write_only Backup_discrete row "row";
  backup_from_str = read_only row "row";
  list_to_string = write_only Page_discrete (row ∷ [], pos 1) "page";
  list_from_str = read_only (row ∷ [], pos 1) "page";
  job_to_vec = λ j. "job";
  job_from_slice = read_only job "job";
}

pub json_laws : IsJson json
json_laws = record {
  backup = read-write_only Backup_discrete row "row";
  list = read-write_only Page_discrete (row ∷ [], pos 1) "page";
}

-- An id in unary.
unfoldable pub unary : ℕ → String
unary zero = ""
unary (suc n) = String.◌++◌ "1" (unary n)

unfoldable pub count : String → ℕ
count String.[] = 0
count (String.◌∷◌ c s) = suc (count s)

abbrev pub uuids : Uuids
uuids = record { to_string = unary; parse = λ s. ok (count s) }

count-unary : (n : ℕ) → count (unary n) ≡ n
unfolding count unary
count-unary zero = refl
count-unary (suc n) = rw (cons-append, nil-append) (ap suc (count-unary n))

pub uuids_laws : IsUuids uuids
uuids_laws = record { round_trip = λ id. ap ok (count-unary id) }

-- The claims of the account "user", from a login at 1000.
abbrev pub claims : Claims
claims = record { sub = "user"; tenant_id = 1; roles = "user" ∷ []; exp = 87400; iat = 1000 }

abbrev pub jwt : Jwt
jwt = record {
  encode = λ c secret. write_only Claims_discrete claims (String.◌++◌ "token." secret) c;
  decode = λ now token secret.
      if leb now claims.exp
      then read_only claims (String.◌++◌ "token." secret) token
      else err "ExpiredSignature";
}

pub jwt_laws : IsJwt jwt
jwt_laws = record {
  decode_encode = λ c secret token now e soon.
      let same = write_only_lem Claims_discrete claims (String.◌++◌ "token." secret) c token e in
      let fresh : leb now claims.exp ≡ true =
        (let bound : now ≤ claims.exp = subst (λ d. now ≤ d.exp) same soon in
          ground (arith, bound)) in
      rw fresh (read-write_only Claims_discrete claims (String.◌++◌ "token." secret) c token e);
}

-- Whole numbers in place of the floating-point ones.
abbrev pub floats : Floats
floats = record {
  F64 = ℕ;
  of_ℕ = λ n. n;
  sub = λ a b. a - b;
  mul = λ a b. a * b;
  div = λ a b. a / b;
  log = λ a. a;
  lt = ltb;
}

abbrev pub services : Services
services = record {
  postgres = postgres;
  redis = redis;
  rabbit = rabbit;
  json = json;
  uuids = uuids;
  jwt = jwt;
  floats = floats;
  missing_extension = (500, "Missing request extension");
}

abbrev pub other_row : Backup
other_row = record row { id = 8; tenant_id = 2; source_path = "/home/x" }

abbrev pub config : AppConfig
config = record {
  database_url = "postgres://db";
  redis_url = "redis://cache";
  amqp_url = "amqp://queue";
  jwt_secret = "s";
  listen_addr = "0.0.0.0:8080";
  grpc_addr = "0.0.0.0:50051";
  rate_limit = record { max_requests = 2; window_secs = 60 };
  cache_ttl_secs = 300;
  cached_list_limit = pos 20;
  cached_list_offset = pos 0;
  apollo_config_url = none;
  apollo_poll_interval_secs = 60;
  apollo_timeout_secs = 10;
}

-- Two rows of two tenants, at the time 2000 and with nothing in the cache.
abbrev pub world : AppState services
world = record {
  db = record { table = row ∷ other_row ∷ []; server = 0 };
  redis = λ k. none;
  cache = Cache.new true;
  config = config;
  rate_limiter = empty;
  amqp_channel = true;
  rabbit = new_broker;
  instant = 0;
  utc = 2000;
  jobs_succeeded = 0;
  jobs_failed = 0;
}

-- A request with the token of the account "user".
abbrev pub request : Request
request = record { authorization = some (some "Bearer token.s"); claims = none }
