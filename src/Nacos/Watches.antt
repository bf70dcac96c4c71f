-- ===== src/Nacos/Watches.antt =====
-- What WatchConfig, its callback and GetAndWatchConfig do to the client.
use panda_go.Prelude.{
  ◌≡◌, ◌≢◌, refl, ap, sym, ◌∙◌, none, some, List, [], ◌∷◌, ◌++◌, arith, append-nil,
}
use panda_go.Go.Text.{GoString}
use panda_go.Go.Map.{load, load-store_self}
use panda_go.Go.Error.{MaybeError}
use panda_go.External.Retry.{RetryLib, retry_twice, second_attempt}
use panda_go.Nacos.Param.{Env, ConfigParam, with_data_id, param_eq}
use panda_go.Nacos.Client.{
  Sdk, NacosClient, Getting, get_config, watch_once, watch_config, get_and_watch_config, on_change,
  hand_first, getting,
}
use panda_go.Nacos.Reads.{get_config-cached}

-- What the callback of a watch does: one call of the handler, and the new content in the cache.
pub on_change-cached :
    {H W : Type 0} (key : ConfigParam) (h : H) (data_id content : GoString) (c : NacosClient H W)
    → ((on_change key h data_id content c).calls ≡ c.calls ++ (h, data_id, content) ∷ [])
      × (load key (on_change key h data_id content c).config_cache_map ≡ some content)
unfolding on_change
on_change-cached key h data_id content c = (refl, load-store_self key content c.config_cache_map)

-- What an attempt to watch leaves: calls and cache as they were, and the handler registered just
-- when there was no error.
pub record Watched {H W : Type 0} (key : ConfigParam) (h : H) (c : NacosClient H W) (e : MaybeError)
    (d : NacosClient H W) : Type 0 where
  pub calls : d.calls ≡ c.calls
  pub cache : d.config_cache_map ≡ c.config_cache_map
  pub registered : e ≡ none → load key d.config_watch_handle_map ≡ some h
  pub refused : e ≢ none → d.config_watch_handle_map ≡ c.config_watch_handle_map

module _ {H W : Type 0} (sdk : Sdk W) (env : Env) (key : ConfigParam) (h : H) where
  watch_once-Watched :
      (s : Getting H W)
      → Watched key h s.client (watch_once sdk env key h s).0 (watch_once sdk env key h s).1.client
  unfolding watch_once
  watch_once-Watched s = record {
    calls = ground arith;
    cache = ground arith;
    registered = ground (arith, load-store_self key h s.client.config_watch_handle_map);
    refused = ground arith;
  }

  second-Watched :
      (c : NacosClient H W) (a : MaybeError) (s : Getting H W)
      → Watched key h c a s.client
      → (let r = second_attempt (watch_once sdk env key h) (a, s) in Watched key h c r.0 r.1.client)
  second-Watched c none s w = w
  second-Watched c (some e) s w =
      let again = watch_once-Watched s in
      record {
        calls = again.calls ∙ w.calls;
        cache = again.cache ∙ w.cache;
        registered = again.registered;
        refused = λ ne. again.refused ne ∙ w.refused (cc);
      }

  -- WatchConfig calls no handler and leaves the cache; it registers the handler under its parameter if
  -- it returns no error, and leaves the registrations alone if it returns one.
  pub watch_config-Watched :
      (retry : RetryLib (Getting H W)) (c : NacosClient H W)
      → Watched key h c
          (watch_config sdk env retry key h c).0
          (watch_config sdk env retry key h c).1
  unfolding watch_config
  watch_config-Watched retry c =
      let (e, s) = watch_once sdk env key h (getting key c) in
      rw (retry_twice retry (watch_once sdk env key h) (getting key c))
        (second-Watched c e s (watch_once-Watched (getting key c)))

-- The handler's calls that a first read brings.
abbrev pub first_calls :
    {H : Type 0} → H → GoString → GoString × MaybeError → List (H × GoString × GoString)
first_calls h key (content, none) = (h, key, content) ∷ []
first_calls h key (content, some e) = []

hand_first-calls :
    {H W : Type 0} (h : H) (key content : GoString) (e : MaybeError) (c : NacosClient H W)
    → (hand_first h key e content c).calls ≡ c.calls ++ first_calls h key (content, e)
unfolding hand_first
hand_first-calls h key content none c = refl
hand_first-calls h key content (some e) c = sym (append-nil c.calls)

module _ {H W : Type 0} (sdk : Sdk W) (env : Env) (retry : RetryLib (Getting H W)) where
  -- GetAndWatchConfig returns the error of the read; the handler is called once with what was read, if
  -- the read succeeded, and is not called otherwise.
  pub get_and_watch_config-calls :
      (key : GoString) (h : H) (c : NacosClient H W)
      → (let read =
            get_config sdk env retry (record (with_data_id key) { group = env.namespace_env }) c in
          ((get_and_watch_config sdk env retry key h c).0 ≡ read.0.1)
          × ((get_and_watch_config sdk env retry key h c).1.calls
              ≡ c.calls ++ first_calls h key read.0))
  unfolding get_and_watch_config
  get_and_watch_config-calls key h c = (
    refl,
    watched.calls ∙ hand_first-calls h key _ _ _ ∙ ap (λ l. l ++ first_calls h key read.0) kept,
  )
    where
      param : ConfigParam
      param = record (with_data_id key) { group = env.namespace_env }

      read : (GoString × MaybeError) × NacosClient H W
      read = get_config sdk env retry param c

      kept : read.1.calls ≡ c.calls
      kept = (get_config-cached sdk env retry param c).0

      given : NacosClient H W
      given = hand_first h key read.0.1 read.0.0 read.1

      watched :
          Watched param h given
            (watch_config sdk env retry param h given).0
            (watch_config sdk env retry param h given).1
      watched = watch_config-Watched sdk env param h retry given
