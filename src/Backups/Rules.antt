-- ===== src/Backups/Rules.antt =====
-- handlers/backups.rs: the steps of a handler, and what each returns over a cache that all tenants
-- share.
use backup_service.Common.{String, Option, none, some, Result, ok, err, map_err}
use backup_service.Common.Outcome.Yields.{Good, Yields, Yields-pure, Yields-raise}
use backup_service.Errors.{AppError}
use backup_service.Config.{AppConfig}
use backup_service.Services.{Services}
use backup_service.Jobs.{BackupJob}
use backup_service.Jobs.Publish.{publish_job}
use backup_service.Sql.{Statement}
use backup_service.Sql.Answers.{Answers, OnSome}
use backup_service.Db.{execute}
use backup_service.Db.Runs.{execute-Answers}
use backup_service.Cache.{CacheLayer}
use backup_service.Cache.Ownership.{HasOwnLists}
use backup_service.State.{AppState, query, cached}
use backup_service.Backups.{Handler, Joined, join, publish, ok_or, or_else}

-- The lists in the cache are their tenants' own.
abbrev pub CacheIsOwn : {s : Services} → AppState s → Type 0
CacheIsOwn {s = s} w = HasOwnLists s.redis s.json s.uuids w.redis

Good-any : {A E : Type 0} (r : Result A E) → Good (λ _. Unit) r
Good-any (ok a) = tt
Good-any (err e) = tt

module _ {s : Services} where
  -- A statement touches no cache.
  pub Yields-query :
      {E A : Type 0} (Q : A → Type 0) (f : String → E) (st : Statement A)
      → Answers Q st
      → Yields CacheIsOwn Q (query s f st)
  unfolding query
  Yields-query {A = A} Q f st answers = record {
    kept = λ w h. h;
    good =
        λ w h. good (execute s.postgres st w.db).0 (execute-Answers s.postgres Q st answers w.db);
  }
    where
      good : (r : Result A String) → Good Q r → Good Q (map_err f r)
      good (ok a) q = q
      good (err e) q = tt

  pub Yields-cached :
      {E A : Type 0} (Q : A → Type 0)
      (f : CacheLayer → AppConfig → s.redis.Server → A × s.redis.Server)
      → ((w : AppState s)
          → CacheIsOwn w
          → HasOwnLists s.redis s.json s.uuids (f w.cache w.config w.redis).1
            × Q (f w.cache w.config w.redis).0)
      → Yields CacheIsOwn Q (cached s {E = E} f)
  unfolding cached
  Yields-cached Q f k = record { kept = λ w h. (k w h).0; good = λ w h. (k w h).1 }

  pub Yields-ok_or :
      {A : Type 0} (Q : A → Type 0) (o : Option A) (e : AppError)
      → OnSome Q o
      → Yields CacheIsOwn Q (ok_or s o e)
  unfolding ok_or
  Yields-ok_or Q none e h = Yields-raise Q e
  Yields-ok_or Q (some a) e h = Yields-pure Q a h

  pub Yields-or_else :
      {A : Type 0} (Q : A → Type 0) (o : Option A) (m : Handler s A)
      → OnSome Q o
      → Yields CacheIsOwn Q m
      → Yields CacheIsOwn Q (or_else s o m)
  unfolding or_else
  Yields-or_else Q none m h k = k
  Yields-or_else Q (some a) m h k = Yields-pure Q a h

  pub Yields-join :
      {A : Type 0} (j : Joined s) (f : String → AppError) (a : A)
      → Yields CacheIsOwn (λ _. Unit) (join s j f a)
  unfolding join
  Yields-join (ok _) f a = Yields-pure (λ _. Unit) a tt
  Yields-join (err e) f a = Yields-raise (λ _. Unit) (f e)

  pub Yields-publish : (job : BackupJob) → Yields CacheIsOwn (λ _. Unit) (publish s job)
  unfolding publish
  Yields-publish job = record {
    kept = λ w h. h;
    good = λ w h. Good-any (map_err _ (publish_job s.rabbit s.json job w.rabbit).0);
  }

-- Every statement answers something.
pub anything : {A : Type 0} {st : Statement A} → Answers (λ _. Unit) st
anything = record { at = λ a t t' x e. tt }
