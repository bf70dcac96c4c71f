-- ===== src/Grpc/World.antt =====
-- The state that the callers share, with its plain operations: common/grpc-wrapper/
-- grpc_client_wrapper/conn-storage/conn.go and component/nacos/config/grpc-call/config.go.
use panda_go.Prelude.{
  Bool, false, Option, none, some, List, [], ◌∷◌, ◌++◌, ◌==◌, nat_eq, list_eq, if◌then◌else◌,
}
use panda_go.Go.Text.{GoString, lit, is_empty}
use panda_go.Go.Map.{GoMap, load, store, delete}
use panda_go.Go.Error.{MaybeError, Result, ok, err}
use panda_go.K8s.{Cache, Listing}
use panda_go.Utils.SyncMap.{
  Value, text, clear_sync_map, stor_sync_map_from_normal_map, get_normal_map_from_sync_map,
}

-- What lies outside: grpc.Dial, the connection's Target(), the cluster's list of services, the
-- publishing of a configuration and the encoding of a map for it. `C` is a connection, `W` the state
-- of everything outside.
pub record Outside (C W : Type 0) : Type 0 where
  pub dial : GoString → W → Result C × W
  pub target : C → GoString
  pub list_services : W → Option Listing
  pub publish : GoString → GoString → W → MaybeError × W
  pub marshal : GoMap GoString GoString → GoString
  pub unmarshal : GoString → GoMap GoString GoString × MaybeError

-- `X` is the type of what is no string among the values of service2NamespaceMap; `invoked` records the
-- connections on which a call was made, in order.
pub record World (C X W : Type 0) : Type 0 where
  pub service_name2conn_map : GoMap GoString C
  pub service2namespace_map : GoMap GoString (Value X)
  pub service2namespaces_mp : Cache
  pub invoked : List C
  pub outside : W

abbrev pub found_or_error : {C : Type 0} → Option C → Result C
found_or_error none =
    err (lit "GetConnFromServiceMap get conn-storage from serviceName2ConnMap fail")
found_or_error (some conn) = ok conn

unfoldable pub delete_keys : {C : Type 0} → List GoString → GoMap GoString C → GoMap GoString C
delete_keys [] m = m
delete_keys (k ∷ ks) m = delete_keys ks (delete k m)

abbrev pub namespace_or_empty : {X : Type 0} → Option (Value X) → GoString
namespace_or_empty (some (text ns)) = ns
namespace_or_empty _ = []

module _ {C X W : Type 0} where
  -- SetServiceName2ConnMap
  unfoldable pub set_service_name2conn_map : GoString → C → World C X W → World C X W
  set_service_name2conn_map name conn w = record w {
    service_name2conn_map = store name conn w.service_name2conn_map;
  }

  -- GetConnFromServiceMap
  unfoldable pub get_conn_from_service_map : GoString → World C X W → Result C
  get_conn_from_service_map name w = found_or_error (load name w.service_name2conn_map)

  -- DeleteByServiceKeys
  unfoldable pub delete_by_service_keys : List GoString → World C X W → World C X W
  delete_by_service_keys names w = record w {
    service_name2conn_map = delete_keys names w.service_name2conn_map;
  }

  -- DeleteAllKey
  unfoldable pub delete_all_key : World C X W → World C X W
  delete_all_key w = record w { service_name2conn_map = clear_sync_map w.service_name2conn_map }

  -- GetServiceNamespace
  unfoldable pub get_service_namespace : GoString → World C X W → GoString
  get_service_namespace name w = namespace_or_empty (load name w.service2namespace_map)

abbrev pub same_namespace : Option GoString → GoString → Bool
same_namespace none ns = false
same_namespace (some old) ns = ns == old

-- The loop of the configuration handler: the entries that differ from the old map
unfoldable pub diff_entries :
    GoMap GoString GoString → GoMap GoString GoString → GoMap GoString GoString
diff_entries [] old = []
diff_entries ((name, ns) ∷ rest) old =
    let later = diff_entries rest old in
    if same_namespace (load name old) ns then later else (name, ns) ∷ later

unfoldable pub keys : GoMap GoString GoString → List GoString
keys [] = []
keys ((k, v) ∷ rest) = k ∷ keys rest

-- GrpcCallRelationKey, once GetGrpcCallConfig has prefixed the service's name
unfoldable pub grpc_call_relation_key : GoString → GoString
grpc_call_relation_key service_name =
    (if is_empty service_name then lit "common-grpc-relation" else service_name)
    ++ lit ".grpc.call.map.service2namespace"

module _ {C X W : Type 0} (outside : Outside C W) where
  unfoldable pub apply_relation : GoMap GoString GoString → World C X W → World C X W
  apply_relation new w =
      let diff = diff_entries new (get_normal_map_from_sync_map w.service2namespace_map) in
      record (delete_by_service_keys (keys diff) w) {
        service2namespace_map = stor_sync_map_from_normal_map diff w.service2namespace_map;
      }

  -- The handler that GetGrpcCallConfig registers: a text that does not decode is logged, and what was
  -- decoded of it is applied
  unfoldable pub on_relation : GoString → World C X W → World C X W
  on_relation value w = if is_empty value then w else apply_relation (outside.unmarshal value).0 w

  -- SetServiceNamespace, which publishes the whole map under `key`
  unfoldable pub set_service_namespace : GoString → GoString → GoString → World C X W → World C X W
  set_service_namespace key name namespace w =
      let m = store name (text namespace) w.service2namespace_map in
      let content = outside.marshal (get_normal_map_from_sync_map m) in
      record w { service2namespace_map = m; outside = (outside.publish key content w.outside).1 }
