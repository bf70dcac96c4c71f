-- ===== src/Kafka.antt =====
-- The Kafka clients of component/kafka: how the three of them find their broker.
pub mod Consumer
pub mod Producer
pub mod Claim
pub mod Address
pub mod Once
pub mod Chans
use panda_go.Prelude.{◌≡◌, refl, none, some, [], ◌++◌, if◌then◌else◌, nat_eq, list_eq}
use panda_go.Go.Text.{GoString, lit, is_empty}
use panda_go.Go.Error.{MaybeError}
use panda_go.Go.Process.{Process, runs, exits}
use panda_go.External.Retry.{RetryLib}
use panda_go.Nacos.Param.{Env, ConfigParam, with_data_id}
use panda_go.Nacos.Client.{Sdk, NacosClient, Getting, get_config}

abbrev pub service_config : Env → ConfigParam
service_config env = with_data_id (env.server_name ++ lit ".kafka.config")

abbrev pub common_config : ConfigParam
common_config = record (with_data_id (lit "common.kafka.config")) { group = lit "DEFAULT_GROUP" }

-- What the second read of the broker's address leads to
unfoldable pub common_url : MaybeError → GoString → Process GoString
common_url (some e) url = exits (lit "get kafka config all fail")
common_url none url = if is_empty url then exits (lit "get common kafka config empty") else runs url

-- What the first read leads to when it succeeds
unfoldable pub service_url : GoString → Process GoString
service_url url = if is_empty url then exits (lit "get service kafka config empty") else runs url

module _ {H W : Type 0} (sdk : Sdk W) (env : Env) (retry : RetryLib (Getting H W)) where
  unfoldable pub second_read : NacosClient H W → Process GoString × NacosClient H W
  second_read c =
      let ((url, e), c') = get_config sdk env retry common_config c in (common_url e url, c')

  -- What the first read leads to
  abbrev pub after_first_read :
      MaybeError → GoString → NacosClient H W → Process GoString × NacosClient H W
  after_first_read none url c = (service_url url, c)
  after_first_read (some e) url c = second_read c

  -- The address of the broker, as the functions given to `once.Do` look it up
  unfoldable pub kafka_url : NacosClient H W → Process GoString × NacosClient H W
  kafka_url c =
      let ((url, e), c') = get_config sdk env retry (service_config env) c in
      after_first_read e url c'
