-- ===== src/Jobs/Durable.antt =====
-- crates/backup-common/src/worker.rs: a job from its publication to its delivery, over a restart of
-- the broker.
use backup_service.Common.{
  ◌≡◌, refl, ap, select-append, ◌∙◌, String, Bool, true, some, ok, List, [], ◌∷◌, ◌++◌, select,
}
use backup_service.Common.Outcome.Keeps.{Keeps, Keeps-bind}
use backup_service.Common.Outcome.Achieves.{Achieves, Achieves-bind}
use backup_service.Services.{Rabbit, Json}
use backup_service.Services.Laws.{IsRabbit}
use backup_service.Jobs.{BackupJob, exchange_name, queue_name, routing_key}
use backup_service.Jobs.Publish.{publish_job}
use backup_service.Jobs.Topology.{connect_rabbitmq}

module _ (r : Rabbit) (laws : IsRabbit r) where
  -- The exchange and the queue of the jobs, durable, and their binding.
  pub record IsDeclared (s : r.Server) : Type 0 where
    pub exchange : r.exchange s exchange_name ≡ some ("direct", true)
    pub queue : r.queue s queue_name ≡ some true
    pub binding : r.bound s queue_name exchange_name routing_key ≡ true

  pub connect_rabbitmq-IsDeclared :
      (url : String) → Achieves (λ _. Unit) (connect_rabbitmq r url) (λ _. IsDeclared)
  unfolding connect_rabbitmq
  connect_rabbitmq-IsDeclared url =
      let HasExchange : r.Server → Type 0 =
        λ s. r.exchange s exchange_name ≡ some ("direct", true) in
      Achieves-bind {R = λ _ _. Unit} _ _ (record { at = λ _ _ _ _. tt })
        (λ _.
          Achieves-bind {R = λ _ _. Unit} _ _ (record { at = λ _ _ _ _. tt })
            (λ _.
              Achieves-bind {R = λ _. HasExchange} _ _
                (record {
                  at = λ s _ _ e. laws.exchange_declare_ok exchange_name "direct" true s e;
                })
                (λ _.
                  Achieves-bind {R = λ _ s. HasExchange s × (r.queue s queue_name ≡ some true)} _ _
                    (record {
                      at = λ s h _ e. (
                        laws.queue_declare_exchange queue_name exchange_name true s ∙ h,
                        laws.queue_declare_ok queue_name true s e,
                      );
                    })
                    (λ _. record {
                      at = λ s h _ e. record {
                        exchange = laws.queue_bind_exchange _ _ _ exchange_name s ∙ h.0;
                        queue = laws.queue_bind_queue _ _ _ queue_name s ∙ h.1;
                        binding = laws.queue_bind_ok _ _ _ s e;
                      };
                    }))))

  -- A connection loses no waiting message, also where it fails.
  connect_rabbitmq-Keeps :
      (url : String) (messages : List (String × Bool))
      → Keeps (λ s. r.ready s queue_name ≡ messages) (connect_rabbitmq r url)
  unfolding connect_rabbitmq
  connect_rabbitmq-Keeps url messages =
      Keeps-bind _ _ (record { at = λ s h. laws.connect_ready url queue_name s ∙ h })
        (λ _.
          Keeps-bind _ _ (record { at = λ s h. laws.create_channel_ready queue_name s ∙ h })
            (λ _.
              Keeps-bind _ _ (record { at = λ s h. laws.exchange_declare_ready _ _ _ _ s ∙ h })
                (λ _.
                  Keeps-bind _ _ (record { at = λ s h. laws.queue_declare_ready _ _ _ s ∙ h })
                    (λ _. record { at = λ s h. laws.queue_bind_ready _ _ _ _ s ∙ h }))))

  -- Where the exchange and the queue are declared, a frame that arrives puts the job into the queue.
  pub publish_job-ready :
      (j : Json) (job : BackupJob) (s : r.Server)
      → IsDeclared s
      → r.reaches s ≡ true
      → (publish_job r j job s).0 ≡ ok tt
      → r.ready (publish_job r j job s).1 queue_name
        ≡ r.ready s queue_name ++ (j.job_to_vec job, true) ∷ []
  unfolding publish_job
  publish_job-ready j job s declared reaches publishes =
      laws.publish_ready _ _ _ _ _ _ true s declared.exchange declared.binding reaches publishes

  abbrev persistent : String × Bool → Bool
  persistent message = message.1

  module _ (j : Json) (url again : String) (job : BackupJob) (s : r.Server) where
    abbrev pub connected : r.Server
    connected = (connect_rabbitmq r url s).1

    abbrev pub published : r.Server
    published = (publish_job r j job connected).1

    published-ready :
        (connect_rabbitmq r url s).0 ≡ ok tt
        → r.reaches connected ≡ true
        → (publish_job r j job connected).0 ≡ ok tt
        → (r.queue published queue_name ≡ some true)
          × (r.ready published queue_name ≡ r.ready s queue_name ++ (j.job_to_vec job, true) ∷ [])
    unfolding publish_job
    published-ready connects reaches publishes =
        let declared = (connect_rabbitmq-IsDeclared url).at s tt tt connects in
        let kept = (connect_rabbitmq-Keeps url (r.ready s queue_name)).at s refl in
        (
          laws.publish_queue _ _ _ _ _ _ connected ∙ declared.queue,
          publish_job-ready j job connected declared reaches publishes
              ∙ ap (λ l. l ++ (j.job_to_vec job, true) ∷ []) kept,
        )

    -- If the connection to RabbitMQ succeeds with its declarations, and a job is then published
    -- without an error by a frame that reaches the broker, then after a restart of the broker
    -- and a further connection, which may fail, the queue of the jobs has the persistent
    -- messages that waited before, and the job as the last, persistent too.
    pub publish_job-restart :
        (connect_rabbitmq r url s).0 ≡ ok tt
        → r.reaches connected ≡ true
        → (publish_job r j job connected).0 ≡ ok tt
        → r.ready (connect_rabbitmq r again (r.restart published)).1 queue_name
          ≡ select persistent (r.ready s queue_name) ++ (j.job_to_vec job, true) ∷ []
    publish_job-restart connects reaches publishes =
        let (durable, waiting) = published-ready connects reaches publishes in
        (connect_rabbitmq-Keeps again _).at (r.restart published) (
          laws.restart_ready queue_name published durable
          ∙ ap (select persistent) waiting
          ∙ select-append persistent (r.ready s queue_name) _)
