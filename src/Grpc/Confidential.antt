-- ===== src/Grpc/Confidential.antt =====
-- grpc.rs: the service has no cache, so its calls leave the one of the handlers alone.
use backup_service.Common.{modify}
use backup_service.Common.Outcome.Yields.{
  Yields, Yields-pure, Yields-raise, Yields-lift, Yields-if, Yields-bind,
}
use backup_service.Proto.{StatusUpdate, ProcessingResult}
use backup_service.Services.{Services}
use backup_service.Backups.Rules.{CacheIsOwn, Yields-query, anything}
use backup_service.Grpc.{
  parse_id, update_status, report_result, record_completed, record_failed, count_success,
  count_failure,
}

module _ (s : Services) where
  Yields-count_success : Yields CacheIsOwn (λ _. Unit) (count_success s)
  unfolding modify
  Yields-count_success = record { kept = λ w h. h; good = λ w h. tt }

  Yields-count_failure : Yields CacheIsOwn (λ _. Unit) (count_failure s)
  unfolding modify
  Yields-count_failure = record { kept = λ w h. h; good = λ w h. tt }

  pub update_status-Yields :
      (msg : StatusUpdate) → Yields CacheIsOwn (λ _. Unit) (update_status s msg)
  unfolding update_status parse_id
  update_status-Yields msg = Yields-bind _ _ _ _ (Yields-lift _) (λ id _.
      Yields-bind _ _ _ _ (Yields-query (λ _. Unit) _ _ anything) (λ rows _.
        Yields-bind _ _ _ _
          (Yields-if (λ _. Unit) _ _ _ (Yields-raise (λ _. Unit) _) (Yields-pure (λ _. Unit) tt tt))
          (λ _ _. Yields-pure (λ _. Unit) _ tt)))

  pub report_result-Yields :
      (result : ProcessingResult s.floats.F64)
      → Yields CacheIsOwn (λ _. Unit) (report_result s result)
  unfolding report_result parse_id record_completed record_failed
  report_result-Yields result = Yields-bind _ _ _ _ (Yields-lift _) (λ id _.
      Yields-bind _ _ _ _
        (Yields-if (λ _. Unit) _ _ _
          (Yields-bind _ _ _ _ (Yields-query (λ _. Unit) _ _ anything)
            (λ _ _. Yields-count_success))
          (Yields-bind _ _ _ _ (Yields-query (λ _. Unit) _ _ anything)
            (λ _ _. Yields-count_failure)))
        (λ _ _. Yields-pure (λ _. Unit) _ tt))
