-- ===== src/Apollo/Fetch.antt =====
-- crates/backup-service/src/apollo/fetch.rs: the request for the remote configuration, and the loop
-- that makes one in every interval.
use backup_service.Common.{ℕ, zero, suc, String, Result, List, [], ◌∷◌, Exec, lift, ◌>>=◌, ◌>>◌}
use backup_service.Config.{AppConfig}
use backup_service.Apollo.{RemoteConfigUpdate, run_one_update}

-- The `reqwest` client with its timeout: a reply, whether its status is an error, and its body as JSON.
pub record HttpClient : Type 1 where
  pub Server : Type 0
  pub Reply : Type 0
  pub get : (url : String) → Exec Server String Reply
  pub error_for_status_ref : Reply → Result (Unit {0}) String
  pub json : Reply → Result RemoteConfigUpdate String

module _ (client : HttpClient) where
  unfoldable pub fetch_config : (url : String) → Exec client.Server String RemoteConfigUpdate
  fetch_config url = do
    resp ← client.get url
    lift (client.error_for_status_ref resp)
    lift (client.json resp)

  -- The loop for `n` ticks of its interval.
  unfoldable pub run_ticks :
      (url : String) → ℕ → AppConfig × client.Server → AppConfig × client.Server
  run_ticks url zero (config, server) = (config, server)
  run_ticks url (suc n) (config, server) =
      let (fetched, server') = fetch_config url server in
      run_ticks url n ((run_one_update fetched config).1, server')

  -- The results of the fetches.
  unfoldable pub fetches :
      (url : String) → ℕ → client.Server → List (Result RemoteConfigUpdate String)
  fetches url zero server = []
  fetches url (suc n) server =
      let (fetched, server') = fetch_config url server in fetched ∷ fetches url n server'
