-- ===== src/Nacos/Setup.antt =====
-- GetNacosClient of component/nacos/base/nacos-client.go: the one client of the process, made from
-- the environment. `C` is the SDK's client, `V` the server of the administration calls, `A` the
-- address of a server, `W` the state of the world.
use panda_go.Prelude.{
  ℕ, zero, Bool, true, ◌&&◌, not, none, some, Option, List, [], ◌∷◌, ◌++◌, if◌then◌else◌, nat_beq,
}
use panda_go.Go.Text.{GoString, lit, is_empty}
use panda_go.Go.Int.{ℤ, pos}
use panda_go.Go.Error.{Result, ok, err}
use panda_go.Go.Process.{Process, runs, exits, and_then}
use panda_go.Nacos.Param.{Env}

-- The fields of constant.ClientConfig that the code reads or sets
pub record ClientSettings : Type 0 where
  pub namespace_id : GoString
  pub not_load_cache_at_start : Bool
  pub cache_dir : GoString
  pub log_dir : GoString
  pub app_name : GoString
  pub update_cache_when_empty : Bool
  pub beat_interval : ℤ
  pub timeout_ms : ℕ

pub record ClientParam (A : Type 0) : Type 0 where
  pub client_config : Option ClientSettings
  pub server_configs : List A

-- encoding/json on the value of the environment variable, the clock as two readings in decimal, and
-- the constructors of the SDK
pub record SetupLib (A C V W : Type 0) : Type 0 where
  pub unmarshal : GoString → Result (ClientParam A)
  pub is_windows : Bool
  pub first_nanos : GoString
  pub second_nanos : GoString
  pub new_config_client : ClientSettings → List A → W → Result C × W
  pub new_nacos_server : List A → C → W → Result V × W

pub record Setup (C V W : Type 0) : Type 0 where
  pub once : Bool
  pub inner_nacos_client : Option (C × V)
  pub world : W

abbrev pub dir_or : Bool → GoString → GoString → GoString
dir_or is_windows dir other = if is_empty dir && not is_windows then other else dir

abbrev pub beat_or_default : ℤ → ℤ
beat_or_default (pos zero) = pos 5000
beat_or_default n = n

-- What the code sets in a configuration that is there
unfoldable pub complete_settings :
    Bool → GoString → GoString → GoString → ClientSettings → ClientSettings
complete_settings is_windows first_nanos second_nanos server_name s = record s {
  not_load_cache_at_start = true;
  cache_dir =
      dir_or is_windows s.cache_dir
        (lit "/tmp/nacos/cache/" ++ s.namespace_id ++ lit "-" ++ first_nanos);
  log_dir =
      dir_or is_windows s.log_dir
        (lit "/tmp/nacos/log/" ++ s.namespace_id ++ lit "-" ++ second_nanos);
  app_name = server_name;
  update_cache_when_empty = true;
  beat_interval = beat_or_default s.beat_interval;
  timeout_ms = if nat_beq s.timeout_ms 0 then 10000 else s.timeout_ms;
}

module _ {A C V W : Type 0} (lib : SetupLib A C V W) (env : Env) (nacos_config : GoString) where
  abbrev pub keep_server : C → Setup C V W → Result V × W → Process (Setup C V W)
  keep_server c g (err e, w) = exits (lit "[GetNacosClient] NewNacosServer failed")
  keep_server c g (ok v, w) =
      runs (record { once = true; inner_nacos_client = some (c, v); world = w })

  abbrev pub keep_client : List A → Setup C V W → Result C × W → Process (Setup C V W)
  keep_client servers g (err e, w) = exits (lit "[GetNacosClient] NewConfigClient failed")
  keep_client servers g (ok c, w) = keep_server c g (lib.new_nacos_server servers c w)

  abbrev pub settings : ClientSettings → ClientSettings
  settings s = complete_settings lib.is_windows lib.first_nanos lib.second_nanos env.server_name s

  abbrev pub open_with : Option ClientSettings → List A → Setup C V W → Process (Setup C V W)
  open_with none servers g = exits (lit "[GetNacosClient] nacosParam.ClientConfig is nil")
  open_with (some s) [] g = exits (lit "[GetNacosClient] nacosParam.ServerConfigs is empty")
  open_with (some s) (a ∷ servers) g =
      keep_client (a ∷ servers) g (lib.new_config_client (settings s) (a ∷ servers) g.world)

  abbrev pub open_parsed : Result (ClientParam A) → Setup C V W → Process (Setup C V W)
  open_parsed (err e) g = exits (lit "[GetNacosClient] json.Unmarshal Nacos Config failed")
  open_parsed (ok p) g = open_with p.client_config p.server_configs g

  -- The function that GetNacosClient gives to `one`
  unfoldable pub open_nacos : Setup C V W → Process (Setup C V W)
  open_nacos g = open_parsed (lib.unmarshal nacos_config) g

  abbrev pub inner_or_exit : Option (C × V) → Setup C V W → Process ((C × V) × Setup C V W)
  inner_or_exit none g = exits (lit "GetNacosClient fail, innerNacosClient is nil")
  inner_or_exit (some c) g = runs (c, g)

  -- GetNacosClient
  unfoldable pub get_nacos_client : Setup C V W → Process ((C × V) × Setup C V W)
  get_nacos_client g =
      and_then (if g.once then runs g else open_nacos g) (λ h. inner_or_exit h.inner_nacos_client h)
