-- ===== src/System.antt =====
-- The running service as a whole: a request to the router, a call of the worker, a fetch of the
-- remote configuration, or the passing of time. Each takes the state that the one before it left.
pub mod Confidential
pub mod Integrity
pub mod JobPath
pub mod StalePage
pub mod Typed
use backup_service.Common.{ℕ, String, Result, List, [], ◌∷◌}
use backup_service.Apollo.{RemoteConfigUpdate, run_one_update}
use backup_service.Grpc.{update_status, report_result}
use backup_service.Http.{Endpoint, Request}
use backup_service.Proto.{StatusUpdate, ProcessingResult}
use backup_service.Router.{serve}
use backup_service.Services.{Services}
use backup_service.State.{AppState, with_config_mut}

module _ (s : Services) where
  pub data Operation : Type 0 where
    http : Endpoint → Request → Operation
    status_update : StatusUpdate → Operation
    result_report : ProcessingResult s.floats.F64 → Operation
    config_fetch : Result RemoteConfigUpdate String → Operation
    clock : (instant utc : ℕ) → Operation

  -- The updater's `state.with_config_mut(|cfg| apply_update(cfg, update))`, if the fetch succeeded.
  unfoldable pub update_config : Result RemoteConfigUpdate String → AppState s → AppState s
  update_config fetched w = (with_config_mut s {E = String} (run_one_update fetched) w).1

  unfoldable pub perform : Operation → AppState s → AppState s
  perform (http endpoint request) w = (serve s endpoint request w).1
  perform (status_update msg) w = (update_status s msg w).1
  perform (result_report result) w = (report_result s result w).1
  perform (config_fetch fetched) w = update_config fetched w
  perform (clock instant utc) w = record w { instant = instant; utc = utc }

  unfoldable pub perform_all : List Operation → AppState s → AppState s
  perform_all [] w = w
  perform_all (op ∷ ops) w = perform_all ops (perform op w)
