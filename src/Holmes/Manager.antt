-- ===== src/Holmes/Manager.antt =====
-- holmsManager: stopTriggerHolmes, createTriggerHolmes, the handler of the configuration, and init.
use panda_go.Prelude.{
  ℕ, true, none, some, Option, List, [], ◌∷◌, ◌++◌, if◌then◌else◌, nat_eq, list_eq,
}
use panda_go.Go.Text.{GoString, lit, is_empty}
use panda_go.Go.Int.{pos}
use panda_go.Go.Error.{MaybeError, Result, ok, err}
use panda_go.Go.Outcome.{Outcome, returns, panics, ◌>>=◌}
use panda_go.External.Retry.{RetryLib}
use panda_go.Nacos.Param.{Env, with_data_id}
use panda_go.Nacos.Client.{
  Sdk, NacosClient, Getting, Publishing, get_config, publish_config, watch_config,
}
use panda_go.Holmes.{
  ItemConfig, HolmesConfig, Dump, HolmesOption, options_of, dumps_of, base_options,
}

-- The rates of the runtime's own profilers
pub record Rates : Type 0 where
  pub mutex_fraction : ℕ
  pub block_rate : ℕ
  pub cpu_rate : ℕ

-- What the running profiler was made with and what it was told
pub record Trigger (T : Type 0) : Type 0 where
  pub profiler : T
  pub dumps : List Dump

-- `started` and `stopped` record the calls of Start and Stop.
pub record Manager (T : Type 0) : Type 0 where
  pub trigger_holmes : Option (Trigger T)
  pub holmes_config : HolmesConfig
  pub rates : Rates
  pub started : List T
  pub stopped : List T

-- holmes.New, and encoding/json on a HolmesConfig: the text "null" leaves the pointer nil.
pub record Library (T : Type 0) : Type 0 where
  pub new : List HolmesOption → Result T
  pub unmarshal : GoString → Result (Option HolmesConfig)
  pub marshal : HolmesConfig → GoString

abbrev pub item : GoString → ℕ → ℕ → ℕ → ℕ → ItemConfig
item kind min diff abs max = record {
  kind = kind;
  min = pos min;
  diff = pos diff;
  abs = pos abs;
  max = pos max;
  cool_down = pos 120;
}

-- The configuration that init publishes when there is none
abbrev pub default_config : GoString → HolmesConfig
default_config server_name = record {
  enable = true;
  items =
      some (item (lit "goroutine") 1000 25 20000 100000)
      ∷ some (item (lit "cpu") 10 25 80 80)
      ∷ some (item (lit "allocs") 40 25 80 80)
      ∷ some (item (lit "heap") 10 20 40 0)
      ∷ [];
  trigger_name = server_name;
}

abbrev pub config_key : Env → GoString
config_key env = env.server_name ++ lit ".holmes.config"

module _ {T : Type 0} where
  -- Mutex and block profiling on
  abbrev pub track : Manager T → Manager T
  track m = record m { rates = record m.rates { mutex_fraction = 1; block_rate = 1 } }

  abbrev pub stop_running : Option (Trigger T) → Manager T → Manager T
  stop_running none m = m
  stop_running (some t) m = record m {
    trigger_holmes = none;
    rates = record { mutex_fraction = 0; block_rate = 0; cpu_rate = 0 };
    stopped = m.stopped ++ t.profiler ∷ [];
  }

  -- stopTriggerHolmes
  unfoldable pub stop_trigger_holmes : Manager T → Manager T
  stop_trigger_holmes m = stop_running m.trigger_holmes m

  -- The two results of newHolmes
  abbrev pub start_made : Manager T → Result T → Outcome (Manager T)
  start_made m (err e) = returns m
  start_made m (ok t) = dumps_of m.holmes_config.items >>= (λ ds. returns (record m {
    trigger_holmes = some (record { profiler = t; dumps = ds });
    started = m.started ++ t ∷ [];
  }))

  module _ (lib : Library T) where
    -- createTriggerHolmes, from the check of Enable on
    unfoldable pub create_enabled : Manager T → Outcome (Manager T)
    create_enabled m = options_of m.holmes_config.items >>= (λ os.
        start_made (track m)
          (lib.new (base_options (lit "trigger") m.holmes_config.trigger_name ++ os)))

    -- createTriggerHolmes
    unfoldable pub create_trigger_holmes : Manager T → Outcome (Manager T)
    create_trigger_holmes m = if m.holmes_config.enable then create_enabled m else returns m

    abbrev pub apply_config : Manager T → Result (Option HolmesConfig) → Outcome (Manager T)
    apply_config m (err e) = returns m
    apply_config m (ok none) = panics
    apply_config m (ok (some config)) = create_trigger_holmes (record m { holmes_config = config })

    -- The handler of the configuration
    unfoldable pub handle_config : GoString → Manager T → Outcome (Manager T)
    handle_config val m =
        let stopped = stop_trigger_holmes m in
        if is_empty val then returns stopped else apply_config stopped (lib.unmarshal val)

    module _ {H W : Type 0} (sdk : Sdk W) (env : Env) (handler : H)
        (getting : RetryLib (Getting H W)) (publishing : RetryLib (Publishing H W)) where
      -- init, once there is a configuration; the error of WatchConfig is dropped
      unfoldable pub init_with :
          GoString → Manager T → NacosClient H W → Outcome (Manager T × NacosClient H W)
      init_with val m c = handle_config val m >>= (λ n.
          let (_, d) = watch_config sdk env getting (with_data_id (config_key env)) handler c in
          returns (track n, d))

      abbrev pub init_published :
          MaybeError → Manager T → NacosClient H W → Outcome (Manager T × NacosClient H W)
      init_published none m c = init_with (lib.marshal (default_config env.server_name)) m c
      init_published (some e) m c = returns (m, c)

      -- init, when there is no configuration to read
      unfoldable pub init_default :
          Manager T → NacosClient H W → Outcome (Manager T × NacosClient H W)
      init_default m c =
          let param = record (with_data_id (config_key env)) {
            content = lib.marshal (default_config env.server_name);
          } in
          let (e, p) = publish_config sdk env publishing param [] c in init_published e m p.client

      abbrev pub init_read :
          MaybeError
          → GoString
          → Manager T
          → NacosClient H W
          → Outcome (Manager T × NacosClient H W)
      init_read none val m c = init_with val m c
      init_read (some e) val m c = init_default m c

      -- init
      unfoldable pub init : Manager T → NacosClient H W → Outcome (Manager T × NacosClient H W)
      init m c =
          let ((val, e), d) = get_config sdk env getting (with_data_id (config_key env)) c in
          init_read e val m d
