-- ===== src/Nacos/Admin/Queries.antt =====
-- The calls that read. Each takes the decoder of its answer.
use panda_go.Prelude.{Bool, none, some, [], ◌++◌, if◌then◌else◌, list_eq, nat_eq}
use panda_go.Go.Text.{GoString, lit, is_empty}
use panda_go.Go.Map.{load, store}
use panda_go.Go.Error.{err}
use panda_go.Nacos.Admin.{
  ClientConfig, Server, Params, Reply, Decoder, method_get, add_tenant, request, read_answer,
  read_loosely, send,
}
use panda_go.Nacos.Admin.Types.{
  HistoryConfigItem, SearchHistoryNacosConfigRsp, SearchListenConfigRsp, SearchNamespaceRsp,
  SearchNacosServiceListRsp, GetNacosServiceInfoRsp, ListNacosServiceInstanceRsp,
  SearchNacosSubscriberListRsp, NacosConfigDetail,
}

module _ {W : Type 0} (server : Server W) (cc : ClientConfig) where
  -- GetHistoryNacosConfigDetail: `missing` is the text of the error for a missing "nid"
  unfoldable pub get_history_nacos_config_detail :
      GoString → Decoder HistoryConfigItem → Params → W → Reply HistoryConfigItem W
  get_history_nacos_config_detail missing decode params w = elim (load (lit "nid") params) [
    | none ↦ record { result = err missing; params = params; world = w }
    | some nid ↦
        send server (read_answer decode)
          (request cc (server.config_base_path ++ lit "/history") method_get (add_tenant cc params))
          w
  ]

  -- SearchHistoryNacosConfig
  unfoldable pub search_history_nacos_config :
      Decoder SearchHistoryNacosConfigRsp → Params → W → Reply SearchHistoryNacosConfigRsp W
  search_history_nacos_config decode params w =
      send server (read_answer decode)
        (request cc (server.config_base_path ++ lit "/history") method_get
          (store (lit "search") (lit "accurate") (add_tenant cc params)))
        w

  -- SearchListenConfig: only "tenant" is set here
  unfoldable pub search_listen_config :
      Decoder SearchListenConfigRsp → Params → Bool → W → Reply SearchListenConfigRsp W
  search_listen_config decode params is_ip w =
      send server (read_answer decode)
        (request cc
          (if is_ip then server.config_base_path ++ lit "/listener" else server.config_listen_path)
          method_get
          (if is_empty cc.namespace_id
            then params
            else store (lit "tenant") cc.namespace_id params))
        w

  -- SearchNamespaces
  unfoldable pub search_namespaces : Decoder SearchNamespaceRsp → W → Reply SearchNamespaceRsp W
  search_namespaces decode w =
      send server (read_answer decode) (request cc server.namespace_path method_get []) w

  -- SearchNacosServiceList
  unfoldable pub search_nacos_service_list :
      Decoder SearchNacosServiceListRsp → Params → W → Reply SearchNacosServiceListRsp W
  search_nacos_service_list decode params w =
      send server (read_answer decode)
        (request cc (server.service_base_path ++ lit "/catalog/services") method_get
          (add_tenant cc params))
        w

  -- GetNacosServiceInfo
  unfoldable pub get_nacos_service_info :
      {F J : Type 0}
      → Decoder (GetNacosServiceInfoRsp F J)
      → Params
      → W
      → Reply (GetNacosServiceInfoRsp F J) W
  get_nacos_service_info decode params w =
      send server (read_answer decode)
        (request cc (server.service_base_path ++ lit "/catalog/service") method_get
          (add_tenant cc params))
        w

  -- ListNacosServiceInstance
  unfoldable pub list_nacos_service_instance :
      {F J : Type 0}
      → Decoder (ListNacosServiceInstanceRsp F J)
      → Params
      → W
      → Reply (ListNacosServiceInstanceRsp F J) W
  list_nacos_service_instance decode params w =
      send server (read_answer decode)
        (request cc (server.service_base_path ++ lit "/catalog/instances") method_get
          (add_tenant cc params))
        w

  -- SearchNacosSubscriberList
  unfoldable pub search_nacos_subscriber_list :
      Decoder SearchNacosSubscriberListRsp → Params → W → Reply SearchNacosSubscriberListRsp W
  search_nacos_subscriber_list decode params w =
      send server (read_answer decode)
        (request cc (server.service_info_path ++ lit "/subscribers") method_get
          (add_tenant cc params))
        w

  -- GetNacosConfigDetail: the error of the decoding is dropped
  unfoldable pub get_nacos_config_detail :
      {J : Type 0} → Decoder (NacosConfigDetail J) → Params → W → Reply (NacosConfigDetail J) W
  get_nacos_config_detail decode params w =
      send server (read_loosely decode)
        (request cc server.config_path method_get (add_tenant cc params)) w
