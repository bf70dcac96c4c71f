-- ===== src/Nacos/Notices/Gets.antt =====
-- A call of GetConfig, over both of its attempts, is a read.
use panda_go.Prelude.{◌≡◌, refl, ap, subst, sym, ◌∙◌, none, some, [], if◌then◌else◌, arith}
use panda_go.Go.Text.{GoString, is_empty}
use panda_go.Go.Map.{GoMap, load, store, load-store}
use panda_go.Go.Error.{MaybeError}
use panda_go.External.Retry.{RetryLib, retry_twice, second_attempt}
use panda_go.Nacos.Param.{Env, ConfigParam, VoConfigParam, change_own_config_param2vo, param_eq}
use panda_go.Nacos.Client.{
  Sdk, NacosClient, Getting, default_group, keep_content, get_once, getting,
}
use panda_go.Nacos.Publishes.{resend, if_empty, otherwise}
use panda_go.Nacos.Notices.{View, put, Requests, Reading, read, unread, view}

pub load_after :
    {A : Type 0} (key : ConfigParam) (a : A) (m : GoMap ConfigParam A)
    → (λ k. load k (store key a m)) ≡ put key a (λ k. load k m)
load_after key a m = λ i k. load-store key k a m i

-- The request that the first attempt makes, and that the second finds
abbrev pub request : Env → ConfigParam → VoConfigParam
request env key = default_group env (change_own_config_param2vo key)

pub request-Requests : (env : Env) (key : ConfigParam) → Requests env key (request env key)
unfolding default_group change_own_config_param2vo
request-Requests env key = (
  if is_empty key.group then env.namespace_env else key.group,
  if_empty key.group env.namespace_env key.group,
  otherwise key.group env.namespace_env key.group,
  ground arith,
)

pub default_group_again :
    (env : Env) (p : VoConfigParam) → default_group env (default_group env p) ≡ default_group env p
unfolding default_group
default_group_again env p = ground arith

module _ {H W : Type 0} (sdk : Sdk W) (env : Env) (key : ConfigParam) where
  -- What an attempt leaves of an answer
  abbrev kept :
      VoConfigParam
      → GoString
      → NacosClient H W
      → (GoString × MaybeError) × W
      → MaybeError × Getting H W
  kept p old c ((content, e), w) = (e, keep_content key p old (record c { world = w }) e content)

  get_once-kept :
      (s : Getting H W) (p : VoConfigParam)
      → default_group env s.param ≡ p
      → get_once sdk env key s ≡ kept p s.content s.client (sdk.sdk_get p s.client.world)
  unfolding get_once
  get_once-kept s p h = ap (λ q. kept q s.content s.client (sdk.sdk_get q s.client.world)) h

  IsReading : View H W → MaybeError × Getting H W → Type 0
  IsReading v (e, s) = Reading sdk env key v s.content e (view s.client)

  kept-IsReading :
      (c : NacosClient H W) (r : (GoString × MaybeError) × W)
      → (let send = sdk.sdk_get (request env key) in resend send (send c.world) ≡ r)
      → IsReading (view c) (kept (request env key) [] c r)
  unfolding IsReading
  kept-IsReading c ((content, none), w) h =
      subst (Reading sdk env key (view c) content none)
        (ap (λ f. record (view c) { cached = f; world = w })
          (sym (load_after key content c.config_cache_map)))
        (read (request env key) (request-Requests env key) h)
  kept-IsReading c ((content, some e), w) h = unread (request env key) (request-Requests env key) h

  second-IsReading :
      (c : NacosClient H W) (r : (GoString × MaybeError) × W)
      → sdk.sdk_get (request env key) c.world ≡ r
      → IsReading (view c) (second_attempt (get_once sdk env key) (kept (request env key) [] c r))
  second-IsReading c ((content, none), w) h =
      kept-IsReading c ((content, none), w) (ap (resend (sdk.sdk_get (request env key))) h)
  second-IsReading c ((content, some e), w) h =
      subst (IsReading (view c))
        (sym (
          get_once-kept
            (record { client = record c { world = w }; param = request env key; content = [] })
            (request env key) (default_group_again env (change_own_config_param2vo key))))
        (kept-IsReading c (sdk.sdk_get (request env key) w)
          (ap (resend (sdk.sdk_get (request env key))) h))

  pub retry-Reading :
      (getter : RetryLib (Getting H W)) (c : NacosClient H W)
      → (let r = getter.retry_do 2 (get_once sdk env key) (getting key c) in
          Reading sdk env key (view c) r.1.content r.0 (view r.1.client))
  unfolding IsReading
  retry-Reading getter c =
      subst (IsReading (view c))
        (sym (
          retry_twice getter (get_once sdk env key) (getting key c)
          ∙ ap (second_attempt (get_once sdk env key))
              (get_once-kept (getting key c) (request env key) refl)))
        (second-IsReading c (sdk.sdk_get (request env key) c.world) refl)
