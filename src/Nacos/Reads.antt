-- ===== src/Nacos/Reads.antt =====
-- What reading, watching and refreshing do to the client: the cache holds what was read, errors
-- change nothing, and which handlers are called.
use panda_go.Prelude.{◌≡◌, refl, ap, ◌∙◌, none, some, [], ◌∷◌, arith, ==_refl, nat_eq, list_eq}
use panda_go.Go.Text.{GoString}
use panda_go.Go.Map.{GoMap, load, load-store_self}
use panda_go.Go.Error.{MaybeError}
use panda_go.External.Retry.{RetryLib, retry_twice, second_attempt}
use panda_go.Nacos.Param.{Env, ConfigParam, param_eq}
use panda_go.Nacos.Client.{
  Sdk, NacosClient, Getting, get_once, get_config, refresh_entry, refresh_entries, refresh_tick,
  renew_watch, renew_if_read, default_group,
}

-- What a read of `key` that begins in `c` leaves: the calls and the watches as they were, and after
-- a success the content in the cache.
pub record Read {H W : Type 0} (key : ConfigParam) (c : NacosClient H W)
    (r : MaybeError × Getting H W) : Type 0 where
  pub calls : r.1.client.calls ≡ c.calls
  pub watches : r.1.client.config_watch_handle_map ≡ c.config_watch_handle_map
  pub cached : r.0 ≡ none → load key r.1.client.config_cache_map ≡ some r.1.content

module _ {H W : Type 0} (key : ConfigParam) (h : H) where
  renew_watch_idle :
      (content : GoString) (c : NacosClient H W)
      → load key c.config_cache_map ≡ some content
      → renew_watch key h content c ≡ c
  unfolding renew_watch
  renew_watch_idle content c e = rw (e, renew_watch) (ground (arith, ==_refl content))

  renew_if_read_idle :
      (e : MaybeError) (content : GoString) (c : NacosClient H W)
      → (e ≡ none → load key c.config_cache_map ≡ some content)
      → renew_if_read key h e content c ≡ c
  unfolding renew_if_read
  renew_if_read_idle none content c cached = renew_watch_idle content c (cached refl)
  renew_if_read_idle (some e) content c cached = refl

module _ {H W : Type 0} (sdk : Sdk W) (env : Env) where
  get_once-Read : (key : ConfigParam) (s : Getting H W) → Read key s.client (get_once sdk env key s)
  unfolding get_once
  get_once-Read key s = record {
    calls = ground arith;
    watches = ground arith;
    cached = ground (
      arith,
      load-store_self key (sdk.sdk_get (default_group env s.param) s.client.world).0.0
          s.client.config_cache_map,
    );
  }

  second-Read :
      (key : ConfigParam) (c : NacosClient H W) (a : MaybeError) (s : Getting H W)
      → Read key c (a, s)
      → Read key c (second_attempt (get_once sdk env key) (a, s))
  second-Read key c none s r = r
  second-Read key c (some e) s r =
      let again = get_once-Read key s in
      record {
        calls = again.calls ∙ r.calls;
        watches = again.watches ∙ r.watches;
        cached = again.cached;
      }

  module _ (retry : RetryLib (Getting H W)) where
    retry-Read :
        (key : ConfigParam) (s : Getting H W)
        → Read key s.client (retry.retry_do 2 (get_once sdk env key) s)
    retry-Read key s = rw (retry_twice retry (get_once sdk env key) s) (
        second-Read key s.client (get_once sdk env key s).0 (get_once sdk env key s).1
          (get_once-Read key s))

    -- GetConfig calls no handler and leaves the watches, and what it returns without an error is in
    -- the cache under the parameter that it was given.
    pub get_config-cached :
        (key : ConfigParam) (c : NacosClient H W)
        → ((get_config sdk env retry key c).1.calls ≡ c.calls)
          × ((get_config sdk env retry key c).1.config_watch_handle_map ≡ c.config_watch_handle_map)
          × ((get_config sdk env retry key c).0.1 ≡ none
              → load key (get_config sdk env retry key c).1.config_cache_map
                ≡ some (get_config sdk env retry key c).0.0)
    unfolding get_config
    get_config-cached key c = let r = retry-Read key _ in (r.calls, r.watches, r.cached)

    -- What GetConfig has just read is in the cache, so RefreshConfig finds it unchanged.
    pub refresh_entry-eq-get_config :
        (key : ConfigParam) (h : H) (c : NacosClient H W)
        → refresh_entry sdk env retry key h c ≡ (get_config sdk env retry key c).1
    unfolding refresh_entry
    refresh_entry-eq-get_config key h c =
        let r = retry-Read key _ in renew_if_read_idle key h _ _ _ r.cached

    refresh_entries-calls :
        (watches : GoMap ConfigParam H) (c : NacosClient H W)
        → (refresh_entries sdk env retry watches c).calls ≡ c.calls
    unfolding refresh_entries
    refresh_entries-calls [] c = refl
    refresh_entries-calls ((key, h) ∷ rest) c =
        refresh_entries-calls rest (refresh_entry sdk env retry key h c)
        ∙ ap (λ (d : NacosClient H W). d.calls) (refresh_entry-eq-get_config key h c)
        ∙ (get_config-cached key c).0

    -- A tick of RefreshConfig calls no handler, whatever the server answers and whatever is watched.
    pub refresh_tick-calls : (c : NacosClient H W) → (refresh_tick sdk env retry c).calls ≡ c.calls
    unfolding refresh_tick
    refresh_tick-calls c = refresh_entries-calls c.config_watch_handle_map c
