-- ===== src/Nacos/Notices.antt =====
-- The calls of the Nacos client and the notices of the SDK, in any order, against what they promise.
pub mod Gets
pub mod Listens
pub mod Steps
use panda_go.Prelude.{
  Bool, true, false, ◌≡◌, ◌≢◌, Option, none, some, List, [], ◌∷◌, ◌++◌, if◌then◌else◌, ◌==◌,
}
use panda_go.Go.Text.{GoString}
use panda_go.Go.Map.{load}
use panda_go.Go.Error.{Error, MaybeError}
use panda_go.External.Retry.{RetryLib}
use panda_go.Nacos.Param.{Env, ConfigParam, VoConfigParam, with_data_id, param_eq}
use panda_go.Nacos.Client.{
  Sdk, NacosClient, Publishing, Getting, publish_config, get_config, watch_config,
  get_and_watch_config, refresh_tick, on_change,
}
use panda_go.Nacos.Publishes.{resend, IsFilled, Carries}

-- What happens to a client: calls of the program, ticks of RefreshConfig, and callbacks of the SDK.
pub data Action (H : Type 0) : Type 0 where
  gets : ConfigParam → Action H
  publishes : ConfigParam → GoString → Action H
  watches : ConfigParam → H → Action H
  gets_and_watches : GoString → H → Action H
  ticks : Action H
  notices : ConfigParam → H → GoString → GoString → Action H

-- What a call returns: a content and an error, the results of publishing with the parameter as it is
-- left, an error alone, or nothing
pub data Output : Type 0 where
  got : GoString → MaybeError → Output
  posted : Bool → MaybeError → ConfigParam → Output
  fails : MaybeError → Output
  silent : Output

module _ {H W : Type 0} (sdk : Sdk W) (env : Env) (getter : RetryLib (Getting H W))
    (publisher : RetryLib (Publishing H W)) where
  unfoldable pub act : Action H → NacosClient H W → Output × NacosClient H W
  act (gets key) c = let ((content, e), d) = get_config sdk env getter key c in (got content e, d)
  act (publishes p old) c =
      let (e, s) = publish_config sdk env publisher p old c in
      (posted s.success e s.param, s.client)
  act (watches key h) c = let (e, d) = watch_config sdk env getter key h c in (fails e, d)
  act (gets_and_watches key h) c =
      let (e, d) = get_and_watch_config sdk env getter key h c in (fails e, d)
  act ticks c = (silent, refresh_tick sdk env getter c)
  act (notices key h data_id content) c = (silent, on_change key h data_id content c)

  -- What the calls return, and the client that they leave
  unfoldable pub act_all : List (Action H) → NacosClient H W → List Output × NacosClient H W
  act_all [] c = ([], c)
  act_all (a ∷ rest) c = let (o, d) = act a c in let (os, last) = act_all rest d in (o ∷ os, last)

-- A client without its tables: what is cached and who watches, by key, the calls of handlers, and the
-- state behind the SDK.
pub record View (H W : Type 0) : Type 0 where
  pub told : List (H × GoString × GoString)
  pub cached : ConfigParam → Option GoString
  pub watcher : ConfigParam → Option H
  pub world : W

abbrev pub put : {A : Type 0} → ConfigParam → A → (ConfigParam → Option A) → ConfigParam → Option A
put key a f = λ k. if key == k then some a else f k

abbrev pub caches : {H W : Type 0} → ConfigParam → GoString → View H W → View H W
caches key content v = record v { cached = put key content v.cached }

abbrev pub registers : {H W : Type 0} → ConfigParam → H → View H W → View H W
registers key h v = record v { watcher = put key h v.watcher }

abbrev pub tells : {H W : Type 0} → H → GoString → GoString → View H W → View H W
tells h name content v = record v { told = v.told ++ (h, name, content) ∷ [] }

abbrev pub moves : {H W : Type 0} → W → View H W → View H W
moves w v = record v { world = w }

abbrev pub first_key : Env → GoString → ConfigParam
first_key env name = record (with_data_id name) { group = env.namespace_env }

-- The request of a key: its fields, with the namespace of the environment in place of an empty group
abbrev pub Requests : Env → ConfigParam → VoConfigParam → Type 0
Requests env key p =
    (g : GoString) × (key.group ≡ [] → g ≡ env.namespace_env)
    × (key.group ≢ [] → g ≡ key.group)
    × Carries (record key { group = g }) p

-- Keys are watched.
abbrev pub has_handler : {H : Type 0} → Option H → Bool
has_handler none = false
has_handler (some h) = true

abbrev pub in_keys : ConfigParam → List ConfigParam → Bool
in_keys k [] = false
in_keys k (j ∷ js) = if j == k then true else in_keys k js

abbrev pub listen : {W : Type 0} → Sdk W → VoConfigParam → W → (Unit {0} × MaybeError) × W
listen sdk p w = let (e, w') = sdk.sdk_listen p w in ((tt, e), w')

module _ {H W : Type 0} (sdk : Sdk W) (env : Env) where
  -- A read: what the SDK answers to the request, or to the same request again after an error. It is
  -- cached and returned when it comes without an error.
  pub data Reading (key : ConfigParam) (v : View H W)
      : GoString → MaybeError → View H W → Type 0 where
    read :
        (p : VoConfigParam) {content : GoString} {w : W}
        → Requests env key p
        → resend (sdk.sdk_get p) (sdk.sdk_get p v.world) ≡ ((content, none), w)
        → Reading key v content none (caches key content (moves w v))
    unread :
        (p : VoConfigParam) {content : GoString} {e : Error} {w : W}
        → Requests env key p
        → resend (sdk.sdk_get p) (sdk.sdk_get p v.world) ≡ ((content, some e), w)
        → Reading key v [] (some e) (moves w v)

  -- A request to listen, sent again after an error: the handler is registered when there is none.
  pub data Listening (key : ConfigParam) (h : H) (v : View H W)
      : MaybeError → View H W → Type 0 where
    watched :
        (p : VoConfigParam) {w : W}
        → Requests env key p
        → resend (listen sdk p) (listen sdk p v.world) ≡ ((tt, none), w)
        → Listening key h v none (registers key h (moves w v))
    unwatched :
        (p : VoConfigParam) {e : Error} {w : W}
        → Requests env key p
        → resend (listen sdk p) (listen sdk p v.world) ≡ ((tt, some e), w)
        → Listening key h v (some e) (moves w v)

  -- Reads of keys, one after another
  pub data Fetches : List ConfigParam → View H W → View H W → Type 0 where
    done : {v : View H W} → Fetches [] v v
    fetched :
        {key : ConfigParam} {keys : List ConfigParam} {content : GoString} {e : MaybeError}
        {v u w : View H W}
        → Reading key v content e u
        → Fetches keys u w
        → Fetches (key ∷ keys) v w

  -- What each action promises: what it returns and the view after it, by the view before it.
  pub data Promises : Action H → View H W → Output → View H W → Type 0 where
    gets_read :
        {key : ConfigParam} {content : GoString} {e : MaybeError} {v w : View H W}
        → Reading key v content e w
        → Promises (gets key) v (got content e) w
    sent :
        {p : ConfigParam} {old : GoString} {b : Bool} {e : MaybeError} {w : W} {v : View H W}
        (q : ConfigParam) (r : VoConfigParam)
        → IsFilled env sdk.md5_string old p q
        → Carries q r
        → resend (sdk.sdk_publish r) (sdk.sdk_publish r v.world) ≡ ((b, e), w)
        → Promises (publishes p old) v (posted b e q) (moves w v)
    listens :
        {key : ConfigParam} {h : H} {e : MaybeError} {v w : View H W}
        → Listening key h v e w
        → Promises (watches key h) v (fails e) w
    not_told :
        {name content : GoString} {h : H} {e : Error} {d : MaybeError} {v u w : View H W}
        → Reading (first_key env name) v content (some e) u
        → Listening (first_key env name) h u d w
        → Promises (gets_and_watches name h) v (fails (some e)) w
    told_first :
        {name content : GoString} {h : H} {d : MaybeError} {v u w : View H W}
        → Reading (first_key env name) v content none u
        → Listening (first_key env name) h (tells h name content u) d w
        → Promises (gets_and_watches name h) v (fails none) w
    refreshed :
        {v w : View H W} (keys : List ConfigParam)
        → ((k : ConfigParam) → in_keys k keys ≡ has_handler (v.watcher k))
        → Fetches keys v w
        → Promises ticks v silent w
    noticed :
        {key : ConfigParam} {h : H} {data_id content : GoString} {v : View H W}
        → Promises
            (notices key h data_id content)
            v
            silent
            (caches key content (tells h data_id content v))

  pub data AllPromise : List (Action H) → View H W → List Output → View H W → Type 0 where
    over : {v : View H W} → AllPromise [] v [] v
    followed_by :
        {a : Action H} {rest : List (Action H)} {o : Output} {os : List Output} {v u w : View H W}
        → Promises a v o u
        → AllPromise rest u os w
        → AllPromise (a ∷ rest) v (o ∷ os) w

abbrev pub view : {H W : Type 0} → NacosClient H W → View H W
view c = record {
  told = c.calls;
  cached = λ k. load k c.config_cache_map;
  watcher = λ k. load k c.config_watch_handle_map;
  world = c.world;
}
