-- ===== src/Services/Laws.antt =====
-- Documented behaviour of the services and crates, as hypotheses.
use backup_service.Common.{
  ℕ, ◌≡◌, ◌≢◌, ◌≤◌, ◌⊎◌, ◌==◌, String, Bool, true, Option, none, some, ok, List, [], ◌∷◌, ◌++◌,
  select,
}
use backup_service.Common.Int.{ℤ}
use mathlib.Core.List.{Perm}
use backup_service.Models.{Uuid, Backup, Claims}
use backup_service.Services.{Redis, Json, Uuids, Postgres, Jwt, Rabbit}

-- Keys may expire at any time; nothing else changes a key but a command on it.
abbrev pub Fades : Option String → Option String → Type 0
Fades before after = (after ≡ none) ⊎ (after ≡ before)

pub record IsRedis (r : Redis) : Type 0 where
  pub get_value : (k v : String) (s s' : r.Server) → r.get k s ≡ (ok v, s') → r.stored s k ≡ some v
  pub get_keeps : (k j : String) (s : r.Server) → Fades (r.stored s j) (r.stored (r.get k s).1 j)
  pub set_ex_self :
      (k v : String) (ttl : ℕ) (s : r.Server)
      → Fades (r.stored s k) (r.stored (r.set_ex k v ttl s).1 k)
        ⊎ (r.stored (r.set_ex k v ttl s).1 k ≡ some v)
  pub set_ex_ne :
      (k j v : String) (ttl : ℕ) (s : r.Server)
      → k ≢ j
      → Fades (r.stored s j) (r.stored (r.set_ex k v ttl s).1 j)
  pub del_keeps : (k j : String) (s : r.Server) → Fades (r.stored s j) (r.stored (r.del k s).1 j)
  pub ping_keeps : (j : String) (s : r.Server) → Fades (r.stored s j) (r.stored (r.ping s).1 j)
  pub del_ok : (k : String) (s s' : r.Server) → r.del k s ≡ (ok tt, s') → r.stored s' k ≡ none

-- What was written reads back.
pub record IsJson (j : Json) : Type 0 where
  pub backup : (b : Backup) (t : String) → j.backup_to_string b ≡ ok t → j.backup_from_str t ≡ ok b
  pub list :
      (l : List Backup × ℤ) (t : String) → j.list_to_string l ≡ ok t → j.list_from_str t ≡ ok l

pub record IsUuids (u : Uuids) : Type 0 where
  pub round_trip : (id : Uuid) → u.parse (u.to_string id) ≡ ok id

-- `ORDER BY` puts the rows into an order.
pub record IsPostgres (p : Postgres) : Type 0 where
  pub order_perm : (rows : List Backup) → Perm (p.order_by_created_at_desc rows) rows

-- A token reads back, with the secret that made it, until it has expired.
pub record IsJwt (j : Jwt) : Type 0 where
  pub decode_encode :
      (claims : Claims) (secret token : String) (now : ℕ)
      → j.encode claims secret ≡ ok token
      → now ≤ claims.exp
      → j.decode now token secret ≡ ok claims

-- A declaration that succeeds has made what it names, or has found it so, and touches nothing else.
-- An exchange of the kind "direct" puts a message into each queue that is bound to it by the
-- message's key. A restart keeps what is durable, with the persistent messages of a durable queue.
pub record IsRabbit (r : Rabbit) : Type 0 where
  pub exchange_declare_ok :
      (e k : String) (d : Bool) (s : r.Server)
      → (r.exchange_declare e k d s).0 ≡ ok tt
      → r.exchange (r.exchange_declare e k d s).1 e ≡ some (k, d)
  pub queue_declare_ok :
      (q : String) (d : Bool) (s : r.Server)
      → (r.queue_declare q d s).0 ≡ ok tt
      → r.queue (r.queue_declare q d s).1 q ≡ some d
  pub queue_declare_exchange :
      (q e : String) (d : Bool) (s : r.Server)
      → r.exchange (r.queue_declare q d s).1 e ≡ r.exchange s e
  pub queue_bind_ok :
      (q e k : String) (s : r.Server)
      → (r.queue_bind q e k s).0 ≡ ok tt
      → r.bound (r.queue_bind q e k s).1 q e k ≡ true
  pub queue_bind_exchange :
      (q e k j : String) (s : r.Server) → r.exchange (r.queue_bind q e k s).1 j ≡ r.exchange s j
  pub queue_bind_queue :
      (q e k j : String) (s : r.Server) → r.queue (r.queue_bind q e k s).1 j ≡ r.queue s j
  pub connect_ready : (url q : String) (s : r.Server) → r.ready (r.connect url s).1 q ≡ r.ready s q
  pub create_channel_ready :
      (q : String) (s : r.Server) → r.ready (r.create_channel s).1 q ≡ r.ready s q
  pub exchange_declare_ready :
      (e k q : String) (d : Bool) (s : r.Server)
      → r.ready (r.exchange_declare e k d s).1 q ≡ r.ready s q
  pub queue_declare_ready :
      (q j : String) (d : Bool) (s : r.Server) → r.ready (r.queue_declare q d s).1 j ≡ r.ready s j
  pub queue_bind_ready :
      (q e k j : String) (s : r.Server) → r.ready (r.queue_bind q e k s).1 j ≡ r.ready s j
  pub publish_ready :
      (q e k payload content_type : String) (mode : ℕ) (d : Bool) (s : r.Server)
      → r.exchange s e ≡ some ("direct", d)
      → r.bound s q e k ≡ true
      → r.reaches s ≡ true
      → (r.basic_publish e k payload content_type mode s).0 ≡ ok tt
      → r.ready (r.basic_publish e k payload content_type mode s).1 q
        ≡ r.ready s q ++ (payload, mode == 2) ∷ []
  pub publish_queue :
      (q e k payload content_type : String) (mode : ℕ) (s : r.Server)
      → r.queue (r.basic_publish e k payload content_type mode s).1 q ≡ r.queue s q
  pub restart_ready :
      (q : String) (s : r.Server)
      → r.queue s q ≡ some true
      → r.ready (r.restart s) q ≡ select (λ (m : String × Bool). m.1) (r.ready s q)
