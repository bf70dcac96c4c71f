-- ===== src/Nacos/Admin/Types.antt =====
-- The answers of the server, as component/nacos/base/nacos-client.go declares them. `F` stands for
-- float64 and `J` for interface{}, which the program only passes on.
use panda_go.Prelude.{Bool, List}
use panda_go.Go.Text.{GoString}
use panda_go.Go.Map.{GoMap}
use panda_go.Go.Int.{ℤ}

pub record Namespace : Type 0 where
  pub namespace : GoString
  pub namespace_show_name : GoString
  pub quota : ℤ
  pub config_count : ℤ
  pub kind : ℤ

pub record SearchNamespaceRsp : Type 0 where
  pub status : ℤ
  pub message : GoString
  pub namespaces : List Namespace

pub record SearchListenConfigRsp : Type 0 where
  pub collect_status : ℤ
  pub lisenters_groupkey_status : GoMap GoString GoString

pub record HistoryConfigItem : Type 0 where
  pub id : GoString
  pub last_id : ℤ
  pub data_id : GoString
  pub group : GoString
  pub tenant : GoString
  pub app_name : GoString
  pub md5 : GoString
  pub content : GoString
  pub src_ip : GoString
  pub src_user : GoString
  pub op_type : GoString
  pub created_time : GoString
  pub last_modified_time : GoString

pub record SearchHistoryNacosConfigRsp : Type 0 where
  pub total_count : ℤ
  pub page_number : ℤ
  pub pages_available : ℤ
  pub page_items : List HistoryConfigItem

pub record NacosService : Type 0 where
  pub name : GoString
  pub group_name : GoString
  pub cluster_count : ℤ
  pub ip_count : ℤ
  pub healthy_instance_count : ℤ
  pub trigger_flag : GoString

pub record SearchNacosServiceListRsp : Type 0 where
  pub count : ℤ
  pub service_list : List NacosService

pub record ServiceInfo (F J : Type 0) : Type 0 where
  pub name : GoString
  pub group_name : GoString
  pub protect_threshold : F
  pub selector_type : GoString
  pub metadata : GoMap GoString J

pub record ClusterInfo (J : Type 0) : Type 0 where
  pub service_name : GoString
  pub name : GoString
  pub health_checker_type : GoString
  pub default_port : ℤ
  pub default_check_port : ℤ
  pub use_ip_port4_check : Bool
  pub metadata : GoMap GoString J

pub record GetNacosServiceInfoRsp (F J : Type 0) : Type 0 where
  pub service : ServiceInfo F J
  pub clusters : List (ClusterInfo J)

pub record NacosServiceInstance (F J : Type 0) : Type 0 where
  pub ip : GoString
  pub port : ℤ
  pub weight : F
  pub healthy : Bool
  pub enabled : Bool
  pub ephemeral : Bool
  pub cluster_name : GoString
  pub service_name : GoString
  pub metadata : GoMap GoString J
  pub instance_heart_beat_interval : ℤ
  pub instance_heart_beat_time_out : ℤ
  pub ip_delete_timeout : ℤ

pub record ListNacosServiceInstanceRsp (F J : Type 0) : Type 0 where
  pub list : List (NacosServiceInstance F J)
  pub count : ℤ

pub record NacosSubscriber : Type 0 where
  pub addr_str : GoString
  pub agent : GoString
  pub app : GoString
  pub ip : GoString
  pub port : ℤ
  pub namespace_id : GoString
  pub service_name : GoString
  pub cluster : GoString

pub record SearchNacosSubscriberListRsp : Type 0 where
  pub nacos_subscribers : List NacosSubscriber
  pub count : ℤ

pub record NacosConfigDetail (J : Type 0) : Type 0 where
  pub id : GoString
  pub data_id : GoString
  pub group : GoString
  pub content : GoString
  pub md5 : GoString
  pub tenant : GoString
  pub app_name : GoString
  pub kind : GoString
  pub create_time : ℤ
  pub modify_time : ℤ
  pub create_user : J
  pub create_ip : GoString
  pub desc : J
  pub used_by : J
  pub effect : J
  pub schema : J
  pub config_tags : J
