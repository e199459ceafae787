-- ===== src/Tests/Broker.antt =====
-- A broker that behaves as documented, small enough to compute with.
use text.Mathlib.Text.{◌==◌ as str_eq}
use text.Mathlib.TextEquality.{eq_iff}
use backup_service.Common.{
  ◌≡◌, refl, String, Bool, true, false, ◌&&◌, Option, none, some, ok, List, [], ◌∷◌, ◌++◌, ◌==◌,
  select, if◌then◌else◌,
}
use backup_service.Services.{Rabbit}
use backup_service.Services.Laws.{IsRabbit}

pub record Broker : Type 0 where
  pub exchanges : String → Option (String × Bool)
  pub queues : String → Option Bool
  pub bindings : String → String → String → Bool
  pub waiting : String → List (String × Bool)

abbrev pub new_broker : Broker
new_broker = record {
  exchanges = λ e. none;
  queues = λ q. none;
  bindings = λ q e k. false;
  waiting = λ q. [];
}

-- A function with one more value.
abbrev set {ℓ} : {A : Type ℓ} → (String → A) → String → A → String → A
set f name value j = if str_eq j name then value else f j

abbrev is_direct : Option (String × Bool) → Bool
is_direct none = false
is_direct (some (kind, durable)) = str_eq kind "direct"

abbrev is_durable : Option Bool → Bool
is_durable none = false
is_durable (some durable) = durable

-- The messages of a queue that a restart keeps.
abbrev kept : Option Bool → List (String × Bool) → List (String × Bool)
kept durable messages = if is_durable durable then select (λ m. m.1) messages else []

abbrev pub rabbit : Rabbit
rabbit = record {
  Server = Broker;
  connect = λ url s. (ok tt, s);
  create_channel = λ s. (ok tt, s);
  exchange_declare = λ e k d s. (ok tt, record s { exchanges = set s.exchanges e (some (k, d)) });
  queue_declare = λ q d s. (ok tt, record s { queues = set s.queues q (some d) });
  queue_bind = λ q e k s. (
    ok tt,
    record s { bindings = set s.bindings q (set (s.bindings q) e (set (s.bindings q e) k true)) },
  );
  basic_publish = λ e k payload content_type mode s. (
    ok tt,
    record s {
      waiting = λ q.
          if is_direct (s.exchanges e) && s.bindings q e k
          then s.waiting q ++ (payload, mode == 2) ∷ []
          else s.waiting q;
    },
  );
  basic_consume = λ q tag s. (ok tt, s);
  exchange = λ s e. s.exchanges e;
  queue = λ s q. s.queues q;
  bound = λ s q e k. s.bindings q e k;
  ready = λ s q. s.waiting q;
  reaches = λ s. true;
  restart = λ s. record s { waiting = λ q. kept (s.queues q) (s.waiting q) };
}

set_self {ℓ} :
    {A : Type ℓ} (f : String → A) (name : String) (value : A) → set f name value name ≡ value
set_self f name value = rw ((eq_iff name name).1 refl)

pub rabbit_laws : IsRabbit rabbit
rabbit_laws = record {
  exchange_declare_ok = λ e k d s _. set_self s.exchanges e (some (k, d));
  queue_declare_ok = λ q d s _. set_self s.queues q (some d);
  queue_declare_exchange = λ q e d s. refl;
  queue_bind_ok =
      λ q e k s _. rw ((eq_iff q q).1 refl, (eq_iff e e).1 refl, (eq_iff k k).1 refl) refl;
  queue_bind_exchange = λ q e k j s. refl;
  queue_bind_queue = λ q e k j s. refl;
  connect_ready = λ url q s. refl;
  create_channel_ready = λ q s. refl;
  exchange_declare_ready = λ e k q d s. refl;
  queue_declare_ready = λ q j d s. refl;
  queue_bind_ready = λ q e k j s. refl;
  publish_ready = λ q e k payload content_type mode d s is bound _ _. rw (is, bound) refl;
  publish_queue = λ q e k payload content_type mode s. refl;
  restart_ready = λ q s durable. rw durable refl;
}
