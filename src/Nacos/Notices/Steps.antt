-- ===== src/Nacos/Notices/Steps.antt =====
-- Every run of the Nacos client's calls and notices does what they promise.
use panda_go.Prelude.{List, [], ◌∷◌}
use panda_go.Go.Map.{GoMap}
use panda_go.Go.Error.{MaybeError}
use panda_go.External.Retry.{RetryLib}
use panda_go.Nacos.Param.{Env, ConfigParam, param_eq}
use panda_go.Nacos.Client.{Sdk, NacosClient, Publishing, Getting, get_once, getting}
use panda_go.Nacos.Notices.{Action, posted, View, Promises, view}

abbrev keys_of : {H : Type 0} → GoMap ConfigParam H → List ConfigParam
keys_of [] = []
keys_of ((key, h) ∷ rest) = key ∷ keys_of rest

module _ {H W : Type 0} (sdk : Sdk W) (env : Env) (getter : RetryLib (Getting H W)) where
  -- What the attempts of GetConfig leave
  abbrev read_by : ConfigParam → NacosClient H W → MaybeError × Getting H W
  read_by key c = getter.retry_do 2 (get_once sdk env key) (getting key c)

  module _ (publisher : RetryLib (Publishing H W)) where
    -- What a call of PublishConfig gives, by its results
    abbrev IsPosted : Action H → View H W → MaybeError × Publishing H W → Type 0
    IsPosted a v (e, s) = Promises sdk env a v (posted s.success e s.param) (view s.client)
