-- ===== src/Nacos/Client.antt =====
-- The operations of `NacosClient` that read, publish, watch and refresh configurations.
-- `W` is the state of the world behind the SDK's client; a handler is known by its name in `H`, and
-- `calls` records the calls of handlers in order.
use panda_go.Prelude.{
  Bool, false, none, some, List, [], ◌∷◌, ◌++◌, if◌then◌else◌, ◌==◌, nat_eq, list_eq,
}
use panda_go.Go.Text.{GoString, is_empty}
use panda_go.Go.Map.{GoMap, load, store}
use panda_go.Go.Error.{MaybeError}
use panda_go.External.Retry.{RetryLib}
use panda_go.Nacos.Param.{
  Env, ConfigParam, VoConfigParam, change_own_config_param2vo, param_eq, with_data_id,
}

-- The SDK's IConfigClient, and the digest of utils.StringToMd5String.
pub record Sdk (W : Type 0) : Type 0 where
  pub sdk_publish : VoConfigParam → W → (Bool × MaybeError) × W
  pub sdk_get : VoConfigParam → W → (GoString × MaybeError) × W
  pub sdk_listen : VoConfigParam → W → MaybeError × W
  pub md5_string : GoString → GoString

pub record NacosClient (H W : Type 0) : Type 0 where
  pub config_cache_map : GoMap ConfigParam GoString
  pub config_watch_handle_map : GoMap ConfigParam H
  pub calls : List (H × GoString × GoString)
  pub world : W

-- handler(key, data)
unfoldable pub call_handler :
    {H W : Type 0} → H → GoString → GoString → NacosClient H W → NacosClient H W
call_handler h key value c = record c { calls = c.calls ++ (h, key, value) ∷ [] }

-- What the closure of PublishConfig closes over: the caller's parameter and the results.
pub record Publishing (H W : Type 0) : Type 0 where
  pub client : NacosClient H W
  pub param : ConfigParam
  pub success : Bool

-- What the closures of GetConfig and WatchConfig close over.
pub record Getting (H W : Type 0) : Type 0 where
  pub client : NacosClient H W
  pub param : VoConfigParam
  pub content : GoString

-- configParam.Group = NamespaceEnv if it is empty
unfoldable pub default_group : Env → VoConfigParam → VoConfigParam
default_group env p = if is_empty p.group then record p { group = env.namespace_env } else p

unfoldable pub prepare_publish : Env → (GoString → GoString) → GoString → ConfigParam → ConfigParam
prepare_publish env md5_string old_data p = record p {
  cas_md5 = if is_empty old_data then p.cas_md5 else md5_string old_data;
  group = if is_empty p.group then env.namespace_env else p.group;
  app_name = if is_empty p.app_name then env.server_name else p.app_name;
}

module _ {H W : Type 0} where
  -- The variables of GetConfig and WatchConfig before the first attempt
  abbrev pub getting : ConfigParam → NacosClient H W → Getting H W
  getting key c = record { client = c; param = change_own_config_param2vo key; content = [] }

  abbrev pub keep_content :
      ConfigParam → VoConfigParam → GoString → NacosClient H W → MaybeError → GoString → Getting H W
  keep_content key p old c none content = record {
    client = record c { config_cache_map = store key content c.config_cache_map };
    param = p;
    content = content;
  }
  keep_content key p old c (some e) content = record { client = c; param = p; content = old }

  -- The OnChange callback that WatchConfig registers
  unfoldable pub on_change :
      ConfigParam → H → GoString → GoString → NacosClient H W → NacosClient H W
  unfolding call_handler
  on_change key handler data_id content c =
      let c' = call_handler handler data_id content c in
      record c' { config_cache_map = store key content c'.config_cache_map }

  abbrev pub keep_watch :
      ConfigParam → H → VoConfigParam → NacosClient H W → MaybeError → Getting H W
  keep_watch key handler p c none = record {
    client = record c { config_watch_handle_map = store key handler c.config_watch_handle_map };
    param = p;
    content = [];
  }
  keep_watch key handler p c (some e) = record { client = c; param = p; content = [] }

  unfoldable pub hand_first :
      H → GoString → MaybeError → GoString → NacosClient H W → NacosClient H W
  unfolding call_handler
  hand_first handler key none cfg c = call_handler handler key cfg c
  hand_first handler key (some e) cfg c = c

  -- What RefreshConfig does with a fetched value, once the cache has been read
  unfoldable pub renew_watch : ConfigParam → H → GoString → NacosClient H W → NacosClient H W
  unfolding call_handler
  renew_watch key handler content c =
      let changed =
        call_handler handler key.data_id content
          (record c { config_cache_map = store key content c.config_cache_map }) in
      elim (load key c.config_cache_map) [
        | none ↦ changed
        | some old ↦ if old == content then c else changed
      ]

  unfoldable pub renew_if_read :
      ConfigParam → H → MaybeError → GoString → NacosClient H W → NacosClient H W
  unfolding renew_watch
  renew_if_read key handler none content c = renew_watch key handler content c
  renew_if_read key handler (some e) content c = c

module _ {H W : Type 0} (sdk : Sdk W) (env : Env) where
  -- One attempt of PublishConfig
  unfoldable pub publish_once : GoString → Publishing H W → MaybeError × Publishing H W
  publish_once old_data s =
      let p = prepare_publish env sdk.md5_string old_data s.param in
      let ((success, e), w) = sdk.sdk_publish (change_own_config_param2vo p) s.client.world in
      (e, record { client = record s.client { world = w }; param = p; success = success })

  -- PublishConfig: the results, and the parameter as the call leaves it for its caller
  unfoldable pub publish_config :
      RetryLib (Publishing H W)
      → ConfigParam
      → GoString
      → NacosClient H W
      → MaybeError × Publishing H W
  unfolding publish_once
  publish_config retry p old_data c =
      retry.retry_do 2 (publish_once old_data) (record { client = c; param = p; success = false })

  -- One attempt of GetConfig
  unfoldable pub get_once : ConfigParam → Getting H W → MaybeError × Getting H W
  unfolding default_group
  get_once key s =
      let p = default_group env s.param in
      let ((content, e), w) = sdk.sdk_get p s.client.world in
      (e, keep_content key p s.content (record s.client { world = w }) e content)

  -- GetConfig
  unfoldable pub get_config :
      RetryLib (Getting H W)
      → ConfigParam
      → NacosClient H W
      → (GoString × MaybeError) × NacosClient H W
  unfolding get_once
  get_config retry key c =
      let (e, s) = retry.retry_do 2 (get_once key) (getting key c) in ((s.content, e), s.client)

  -- One attempt of WatchConfig
  unfoldable pub watch_once : ConfigParam → H → Getting H W → MaybeError × Getting H W
  unfolding default_group
  watch_once key handler s =
      let p = default_group env s.param in
      let (e, w) = sdk.sdk_listen p s.client.world in
      (e, keep_watch key handler p (record s.client { world = w }) e)

  -- WatchConfig
  unfoldable pub watch_config :
      RetryLib (Getting H W) → ConfigParam → H → NacosClient H W → MaybeError × NacosClient H W
  unfolding watch_once
  watch_config retry key handler c =
      let (e, s) = retry.retry_do 2 (watch_once key handler) (getting key c) in (e, s.client)

  -- GetAndWatchConfig: the error of the read is returned, that of the watch is dropped
  unfoldable pub get_and_watch_config :
      RetryLib (Getting H W) → GoString → H → NacosClient H W → MaybeError × NacosClient H W
  get_and_watch_config retry key handler c =
      let param = record (with_data_id key) { group = env.namespace_env } in
      let ((cfg, e), c') = get_config retry param c in
      let (_, c'') = watch_config retry param handler (hand_first handler key e cfg c') in (e, c'')

  -- One entry of the Range loop of RefreshConfig
  unfoldable pub refresh_entry :
      RetryLib (Getting H W) → ConfigParam → H → NacosClient H W → NacosClient H W
  unfolding get_config renew_if_read
  refresh_entry retry key handler c =
      let ((content, e), c') = get_config retry key c in renew_if_read key handler e content c'

  unfoldable pub refresh_entries :
      RetryLib (Getting H W) → GoMap ConfigParam H → NacosClient H W → NacosClient H W
  unfolding refresh_entry
  refresh_entries retry [] c = c
  refresh_entries retry ((key, handler) ∷ rest) c =
      refresh_entries retry rest (refresh_entry retry key handler c)

  -- One tick of the loop of RefreshConfig
  unfoldable pub refresh_tick : RetryLib (Getting H W) → NacosClient H W → NacosClient H W
  unfolding refresh_entries
  refresh_tick retry c = refresh_entries retry c.config_watch_handle_map c
