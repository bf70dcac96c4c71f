-- ===== src/Nacos/Admin.antt =====
-- The administration calls of component/nacos/base/nacos-client.go: each builds one request to the
-- server from the caller's parameters and the client's configuration, and reads the answer.
pub mod Types
pub mod Queries
pub mod Mutations
pub mod Answers
use panda_go.Prelude.{ℕ, none, some, [], if◌then◌else◌, ◌==◌, nat_eq, list_eq}
use panda_go.Go.Text.{GoString, lit, is_empty}
use panda_go.Go.Map.{GoMap, store}
use panda_go.Go.Error.{MaybeError, Result, ok, err}

-- The fields of the SDK's constant.ClientConfig that the calls read.
pub record ClientConfig : Type 0 where
  pub namespace_id : GoString
  pub access_key : GoString
  pub secret_key : GoString
  pub timeout_ms : ℕ

pub data Method : Type 0 where
  method_get method_post method_put method_delete : Method

abbrev pub Params : Type 0
Params = GoMap GoString GoString

pub record Request : Type 0 where
  pub path : GoString
  pub params : Params
  pub headers : Params
  pub method : Method
  pub timeout_ms : ℕ

-- The SDK's NacosServer.ReqConfigApi, and the paths that its package `constant` names.
pub record Server (W : Type 0) : Type 0 where
  pub req_config_api : Request → W → (GoString × MaybeError) × W
  pub config_base_path : GoString
  pub config_listen_path : GoString
  pub config_path : GoString
  pub namespace_path : GoString
  pub service_base_path : GoString
  pub service_path : GoString
  pub service_info_path : GoString

-- What a call returns, with the caller's map of parameters as the call leaves it.
pub record Reply (T W : Type 0) : Type 0 where
  pub result : Result T
  pub params : Params
  pub world : W

-- if len(clientConfig.NamespaceId) > 0 { params["tenant"] = …; params["namespaceId"] = … }
unfoldable pub add_tenant : ClientConfig → Params → Params
add_tenant cc params =
    if is_empty cc.namespace_id
    then params
    else store (lit "namespaceId") cc.namespace_id (store (lit "tenant") cc.namespace_id params)

unfoldable pub headers_of : ClientConfig → Params
headers_of cc = store (lit "secretKey") cc.secret_key (store (lit "accessKey") cc.access_key [])

abbrev pub request : ClientConfig → GoString → Method → Params → Request
request cc path method params = record {
  path = path;
  params = params;
  headers = headers_of cc;
  method = method;
  timeout_ms = cc.timeout_ms;
}

-- json.Unmarshal into a fresh variable: the variable, and the error.
abbrev pub Decoder : Type 0 → Type 0
Decoder T = GoString → T × MaybeError

abbrev pub decoded : {T : Type 0} → T × MaybeError → Result T
decoded (value, none) = ok value
decoded (value, some e) = err e

abbrev pub read_answer : {T : Type 0} → Decoder T → GoString × MaybeError → Result T
read_answer decode (content, none) = decoded (decode content)
read_answer decode (content, some e) = err e

-- The error of the call is dropped, and whatever was decoded is returned.
abbrev pub read_loosely : {T : Type 0} → Decoder T → GoString × MaybeError → Result T
read_loosely decode (content, none) = ok (decode content).0
read_loosely decode (content, some e) = err e

-- A change is accepted by the answer `expected` alone; any other answer is the error's text.
abbrev pub check_answer : GoString → GoString × MaybeError → Result (Unit {0})
check_answer expected (content, none) = if content == expected then ok tt else err content
check_answer expected (content, some e) = err e

unfoldable pub send :
    {T W : Type 0} → Server W → (GoString × MaybeError → Result T) → Request → W → Reply T W
send server read r w =
    let (answer, w') = server.req_config_api r w in
    record { result = read answer; params = r.params; world = w' }
