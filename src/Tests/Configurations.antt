-- ===== src/Tests/Configurations.antt =====
-- A Nacos server that answers every read by "on" but fails the first, and accepts every change.
use panda_go.Prelude.{ℕ, zero, suc, ◌+◌, ◌≡◌, true, none, some, List, [], ◌∷◌, nat_eq, list_eq}
use panda_go.Go.Text.{lit}
use panda_go.Go.Map.{load}
use panda_go.Go.Error.{MaybeError}
use panda_go.External.Retry.{RetryLib, plain_retry}
use panda_go.Nacos.Param.{VoConfigParam, Env, ConfigParam, with_data_id, param_eq}
use panda_go.Nacos.Client.{Sdk, NacosClient, Publishing, Getting, publish_config, watch_config}
use panda_go.Nacos.Publishes.{IsFilled, Carries, publish_config-published, published}
use panda_go.Nacos.Watches.{Watched, watch_config-Watched}
use panda_go.Nacos.Notices.{Action, gets, publishes, watches, gets_and_watches, ticks, notices}
use panda_go.Nacos.Admin.{ClientConfig, Server}
use panda_go.Nacos.Admin.Answers.{
  service_creation, config_edit, perform, Judged, change_params, perform-Judged,
  change_params-tenant,
}

abbrev pub first_fails : ℕ → MaybeError
first_fails zero = some (lit "down")
first_fails (suc n) = none

-- The state counts the requests.
abbrev pub sdk : Sdk ℕ
sdk = record {
  sdk_publish = λ p n. ((true, first_fails n), n + 1);
  sdk_get = λ p n. ((lit "on", first_fails n), n + 1);
  sdk_listen = λ p n. (first_fails n, n + 1);
  md5_string = λ s. s;
}

abbrev pub env : Env
env = record { server_name = lit "panda"; namespace_env = lit "dev"; pod_name = [] }

abbrev pub client : NacosClient ℕ ℕ
client = record { config_cache_map = []; config_watch_handle_map = []; calls = []; world = 0 }

abbrev key : ConfigParam
key = with_data_id (lit "switch")

-- One handler, 7, is registered for the key.
abbrev watching : NacosClient ℕ ℕ
watching = record client { config_watch_handle_map = (key, 7) ∷ [] }

abbrev pub getter : RetryLib (Getting ℕ ℕ)
getter = plain_retry (Getting ℕ ℕ)

publish_config-published_example :
    (q : ConfigParam) × (v : VoConfigParam) × IsFilled env (λ s. s) (lit "off") key q
    × Carries q v
    × (publish_config sdk env (plain_retry (Publishing ℕ ℕ)) key (lit "off") client
        ≡ published client q ((true, none), 2))
publish_config-published_example =
    publish_config-published sdk env (plain_retry (Publishing ℕ ℕ)) (lit "off") key client

watch_config-Watched_example :
    Watched key 7 client
      (watch_config sdk env getter key 7 client).0
      (watch_config sdk env getter key 7 client).1
watch_config-Watched_example = watch_config-Watched sdk env key 7 getter client

abbrev publisher : RetryLib (Publishing ℕ ℕ)
publisher = plain_retry (Publishing ℕ ℕ)

-- A first read that succeeds at its second attempt, a tick, a notice and a change.
abbrev actions : List (Action ℕ)
actions =
    gets_and_watches (lit "switch") 7
    ∷ ticks
    ∷ notices key 7 (lit "switch") (lit "off")
    ∷ publishes key []
    ∷ gets key
    ∷ watches key 8
    ∷ []

abbrev server : Server ℕ
server = record {
  req_config_api = λ r n. ((lit "ok", none), n + 1);
  config_base_path = lit "/cs";
  config_listen_path = lit "/listen";
  config_path = lit "/configs";
  namespace_path = lit "/namespaces";
  service_base_path = lit "/ns";
  service_path = lit "/instance";
  service_info_path = lit "/service";
}

abbrev config : ClientConfig
config = record {
  namespace_id = lit "dev";
  access_key = lit "a";
  secret_key = lit "s";
  timeout_ms = 5000;
}

perform-Judged_example :
    Judged (lit "ok") (lit "ok", none) (perform server config service_creation [] 0).result
    × ((perform server config service_creation [] 0).world ≡ 1)
    × ((perform server config service_creation [] 0).params
        ≡ change_params config service_creation [])
perform-Judged_example = perform-Judged server config service_creation [] 0

change_params-tenant_example :
    load (lit "tenant") (change_params config (config_edit (lit "root")) []) ≡ some (lit "dev")
unfolding lit
change_params-tenant_example = change_params-tenant config (config_edit (lit "root")) []
