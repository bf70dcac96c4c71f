-- ===== src/Tests/Profilers.antt =====
-- The manager of the profiler and the set-up of the Nacos client, with small libraries.
use panda_go.Prelude.{
  ℕ, ◌≡◌, refl, true, false, none, some, List, [], ◌∷◌, nat_eq, list_eq, list_beq,
}
use panda_go.Go.Text.{lit}
use panda_go.Go.Int.{pos}
use panda_go.Go.Error.{ok}
use panda_go.Go.Outcome.{Outcome, returns, panics}
use panda_go.Go.Process.{runs}
use panda_go.External.Retry.{plain_retry}
use panda_go.Nacos.Client.{NacosClient, Publishing}
use panda_go.Nacos.Setup.{ClientSettings, SetupLib, Setup, get_nacos_client, open_nacos}
use panda_go.Nacos.Ready.{Made, get_nacos_client-Ready}
use panda_go.Holmes.{HolmesConfig, options_of, dumps_of, dump_of}
use panda_go.Holmes.Manager.{
  Manager, Library, item, handle_config, create_trigger_holmes, create_enabled, stop_trigger_holmes,
  init,
}
use panda_go.Holmes.Runs.{
  Event, configured, stop_asked, new_manager, run_events, IsSound, run_events-IsSound,
}
use panda_go.Interceptor.Shutdown.{Running, Closed, shut_down, shut_down-Closed}
use panda_go.Tests.Configurations.{sdk, env, client, getter}

abbrev value_or : {A : Type 0} → A → Outcome A → A
value_or a (returns b) = b
value_or a panics = a

abbrev profiled : HolmesConfig
profiled = record {
  enable = true;
  items = some (item (lit "cpu") 10 25 80 80) ∷ [];
  trigger_name = lit "panda";
}

-- Profilers are numbered by nothing: every one is 3.
abbrev holmes : Library ℕ
holmes = record { new = λ os. ok 3; unmarshal = λ s. ok (some profiled); marshal = λ c. lit "{}" }

abbrev events : List Event
events = configured (lit "{}") ∷ stop_asked ∷ configured (lit "{}") ∷ []

run_events-IsSound_example :
    IsSound holmes (value_or new_manager (run_events holmes events new_manager))
unfolding run_events handle_config create_trigger_holmes create_enabled stop_trigger_holmes
    options_of dumps_of dump_of list_beq lit
run_events-IsSound_example = run_events-IsSound holmes events _ refl

-- A consumer, 3, has been opened, and no consumer group and no producer.
abbrev process : Running ℕ ℕ ℕ ℕ ℕ ℕ ℕ
process = record {
  tracer_closed = false;
  manager = value_or new_manager (run_events holmes events new_manager);
  consumers = record {
    once = true;
    once_consumer = false;
    client = some 3;
    consumer_group = none;
    topic2_message_chan_map = [];
    next = 0;
    waiting = [];
    consuming = [];
    nacos = client;
    brokers = 0;
    closed_client = false;
    closed_group = false;
  };
  producers = record { once = false; producer = none; nacos = client; brokers = 0; closed = false };
  exit_code = none;
}

shut_down-Closed_example :
    ((shut_down process).manager.started ≡ (shut_down process).manager.stopped)
    × ((shut_down process).manager.trigger_holmes ≡ none)
    × Closed (shut_down process).consumers.client (shut_down process).consumers.closed_client
    × Closed (shut_down process).consumers.consumer_group (shut_down process).consumers.closed_group
    × Closed (shut_down process).producers.producer (shut_down process).producers.closed
    × ((shut_down process).tracer_closed ≡ true)
    × ((shut_down process).exit_code ≡ some 1)
unfolding run_events handle_config create_trigger_holmes create_enabled stop_trigger_holmes
    options_of dumps_of dump_of list_beq lit
shut_down-Closed_example = shut_down-Closed holmes events process refl

abbrev given : ClientSettings
given = record {
  namespace_id = lit "ns";
  not_load_cache_at_start = false;
  cache_dir = [];
  log_dir = lit "/log";
  app_name = [];
  update_cache_when_empty = false;
  beat_interval = pos 0;
  timeout_ms = 0;
}

-- One server, 5; the client is 1 and the server of the administration calls 2.
abbrev setup_lib : SetupLib ℕ ℕ ℕ ℕ
setup_lib = record {
  unmarshal = λ s. ok (record { client_config = some given; server_configs = 5 ∷ [] });
  is_windows = false;
  first_nanos = lit "1";
  second_nanos = lit "2";
  new_config_client = λ s a w. (ok 1, w);
  new_nacos_server = λ a c w. (ok 2, w);
}

abbrev not_set_up : Setup ℕ ℕ ℕ
not_set_up = record { once = false; inner_nacos_client = none; world = 0 }

abbrev set_up : Setup ℕ ℕ ℕ
set_up = record { once = true; inner_nacos_client = some (1, 2); world = 0 }

get_nacos_client-Ready_example :
    Made setup_lib env (lit "{}") not_set_up 1 2
    × (get_nacos_client setup_lib env (lit "{}") set_up ≡ runs ((1, 2), set_up))
unfolding get_nacos_client open_nacos
get_nacos_client-Ready_example =
    get_nacos_client-Ready setup_lib env (lit "{}") not_set_up set_up 1 2 refl refl

abbrev published_default : Manager ℕ × NacosClient ℕ ℕ
published_default =
    value_or (new_manager, client)
      (init holmes sdk env 7 getter (plain_retry (Publishing ℕ ℕ)) new_manager client)
