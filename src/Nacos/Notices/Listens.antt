-- ===== src/Nacos/Notices/Listens.antt =====
-- A call of WatchConfig, over both of its attempts, is a request to listen.
use panda_go.Prelude.{◌≡◌, refl, ap, subst, sym, ◌∙◌, none, some, []}
use panda_go.Go.Error.{MaybeError}
use panda_go.External.Retry.{RetryLib, retry_twice, second_attempt}
use panda_go.Nacos.Param.{Env, ConfigParam, VoConfigParam, change_own_config_param2vo, param_eq}
use panda_go.Nacos.Client.{
  Sdk, NacosClient, Getting, default_group, keep_watch, watch_once, watch_config, getting,
}
use panda_go.Nacos.Publishes.{resend}
use panda_go.Nacos.Notices.{View, listen, Listening, watched, unwatched, view}
use panda_go.Nacos.Notices.Gets.{load_after, request, request-Requests, default_group_again}

module _ {H W : Type 0} (sdk : Sdk W) (env : Env) (key : ConfigParam) (h : H) where
  -- What an attempt leaves of an answer
  abbrev kept :
      VoConfigParam → NacosClient H W → (Unit {0} × MaybeError) × W → MaybeError × Getting H W
  kept p c ((u, e), w) = (e, keep_watch key h p (record c { world = w }) e)

  watch_once-kept :
      (s : Getting H W) (p : VoConfigParam)
      → default_group env s.param ≡ p
      → watch_once sdk env key h s ≡ kept p s.client (listen sdk p s.client.world)
  unfolding watch_once
  watch_once-kept s p e = ap (λ q. kept q s.client (listen sdk q s.client.world)) e

  IsListening : View H W → MaybeError × Getting H W → Type 0
  IsListening v (e, s) = Listening sdk env key h v e (view s.client)

  kept-IsListening :
      (c : NacosClient H W) (r : (Unit {0} × MaybeError) × W)
      → (let send = listen sdk (request env key) in resend send (send c.world) ≡ r)
      → IsListening (view c) (kept (request env key) c r)
  unfolding IsListening
  kept-IsListening c ((u, none), w) e =
      subst (Listening sdk env key h (view c) none)
        (ap (λ f. record (view c) { watcher = f; world = w })
          (sym (load_after key h c.config_watch_handle_map)))
        (watched (request env key) (request-Requests env key) e)
  kept-IsListening c ((u, some d), w) e = unwatched (request env key) (request-Requests env key) e

  second-IsListening :
      (c : NacosClient H W) (r : (Unit {0} × MaybeError) × W)
      → listen sdk (request env key) c.world ≡ r
      → IsListening
          (view c)
          (second_attempt (watch_once sdk env key h) (kept (request env key) c r))
  second-IsListening c ((u, none), w) e =
      kept-IsListening c ((u, none), w) (ap (resend (listen sdk (request env key))) e)
  second-IsListening c ((u, some d), w) e =
      subst (IsListening (view c))
        (sym (
          watch_once-kept
            (record { client = record c { world = w }; param = request env key; content = [] })
            (request env key) (default_group_again env (change_own_config_param2vo key))))
        (kept-IsListening c (listen sdk (request env key) w)
          (ap (resend (listen sdk (request env key))) e))

  pub watch_config-Listening :
      (getter : RetryLib (Getting H W)) (c : NacosClient H W)
      → (let r = watch_config sdk env getter key h c in
          Listening sdk env key h (view c) r.0 (view r.1))
  unfolding watch_config IsListening
  watch_config-Listening getter c =
      subst (IsListening (view c))
        (sym (
          retry_twice getter (watch_once sdk env key h) (getting key c)
          ∙ ap (second_attempt (watch_once sdk env key h))
              (watch_once-kept (getting key c) (request env key) refl)))
        (second-IsListening c (listen sdk (request env key) c.world) refl)
