-- ===== src/Nacos/Admin/Answers.antt =====
-- What the administration calls ask for, and what they make of the answer.
use panda_go.Prelude.{
  ◌≡◌, ◌≢◌, ◌↔◌, refl, ◌∙◌, Option, none, some, arith, if◌then◌else◌, ==_iff, ==_ne, list_eq,
  nat_eq,
}
use panda_go.Go.Text.{GoString, lit, is_empty}
use panda_go.Go.Map.{load, store, load-store}
use panda_go.Go.Error.{MaybeError, Result, ok, err}
use panda_go.Nacos.Admin.{
  ClientConfig, Method, Server, Params, Request, Reply, Decoder, method_post, method_put,
  method_delete, add_tenant, request, check_answer, send,
}
use panda_go.Nacos.Admin.Types.{HistoryConfigItem}
use panda_go.Nacos.Admin.Queries.{get_history_nacos_config_detail}
use panda_go.Nacos.Admin.Mutations.{
  update_nacos_service_instance, create_nacos_service, update_nacos_service, delete_nacos_service,
  edit_nacos_config_detail,
}

-- The five calls that change something on the server.
pub data Change : Type 0 where
  instance_update service_creation service_update service_deletion : Change
  config_edit : GoString → Change

module _ {W : Type 0} (server : Server W) (cc : ClientConfig) where
  abbrev pub perform : Change → Params → W → Reply (Unit {0}) W
  perform instance_update = update_nacos_service_instance server cc
  perform service_creation = create_nacos_service server cc
  perform service_update = update_nacos_service server cc
  perform service_deletion = delete_nacos_service server cc
  perform (config_edit user) = edit_nacos_config_detail server cc user

  abbrev pub change_path : Change → GoString
  change_path instance_update = server.service_path
  change_path (config_edit user) = server.config_path
  change_path _ = server.service_info_path

abbrev pub change_method : Change → Method
change_method service_creation = method_post
change_method service_deletion = method_delete
change_method (config_edit user) = method_post
change_method _ = method_put

abbrev pub expected : Change → GoString
expected (config_edit user) = lit "true"
expected _ = lit "ok"

abbrev pub change_params : ClientConfig → Change → Params → Params
change_params cc (config_edit user) params = store (lit "username") user (add_tenant cc params)
change_params cc _ params = add_tenant cc params

abbrev pub change_request : {W : Type 0} → Server W → ClientConfig → Change → Params → Request
change_request server cc c params =
    request cc (change_path server cc c) (change_method c) (change_params cc c params)

-- What a change makes of the server's answer: success for the expected text alone, else the
-- unexpected text, or the error of the call.
pub record Judged (good : GoString) (answer : GoString × MaybeError) (r : Result (Unit {0}))
    : Type 0 where
  pub accepted : (r ≡ ok tt) ↔ ((answer.0 ≡ good) × (answer.1 ≡ none))
  pub refused : answer.0 ≢ good → answer.1 ≡ none → r ≡ err answer.0
  pub failed : (e : GoString) → answer.1 ≡ some e → r ≡ err e

check_answer-Judged :
    (good : GoString) (answer : GoString × MaybeError)
    → Judged good answer (check_answer good answer)
check_answer-Judged good (content, none) = record {
  accepted = ground (arith, ==_iff content good);
  refused = ground (arith, ==_iff content good);
  failed = ground arith;
}
check_answer-Judged good (content, some e) = record {
  accepted = ground arith;
  refused = ground arith;
  failed = ground arith;
}

module _ {W : Type 0} (server : Server W) (cc : ClientConfig) where
  -- Each call that changes something sends one request, with its own path and method, and succeeds
  -- just when the answer is the expected text; any other text, and the error of a failed call, is its
  -- error.
  pub perform-Judged :
      (c : Change) (params : Params) (w : W)
      → (let answer = server.req_config_api (change_request server cc c params) w in
          Judged (expected c) answer.0 (perform server cc c params w).result
          × ((perform server cc c params w).world ≡ answer.1)
          × ((perform server cc c params w).params ≡ change_params cc c params))
  unfolding send update_nacos_service_instance create_nacos_service update_nacos_service
      delete_nacos_service edit_nacos_config_detail
  perform-Judged instance_update params w = (check_answer-Judged _ _, refl, refl)
  perform-Judged _ params w = (check_answer-Judged _ _, refl, refl)

-- The namespace under which the server answers.
abbrev pub tenant_of : ClientConfig → Params → Option GoString
tenant_of cc params =
    if is_empty cc.namespace_id then load (lit "tenant") params else some cc.namespace_id

tenant-ne-namespace : lit "namespaceId" ≢ lit "tenant"
unfolding lit
tenant-ne-namespace = ground arith

tenant-ne-username : lit "username" ≢ lit "tenant"
unfolding lit
tenant-ne-username = ground arith

add_tenant-tenant :
    (cc : ClientConfig) (params : Params)
    → load (lit "tenant") (add_tenant cc params) ≡ tenant_of cc params
unfolding add_tenant
add_tenant-tenant cc params = ground (
  arith,
  load-store (lit "namespaceId") (lit "tenant") cc.namespace_id
      (store (lit "tenant") cc.namespace_id params),
  load-store (lit "tenant") (lit "tenant") cc.namespace_id params,
  ==_iff (lit "tenant") (lit "tenant"),
  ==_ne (lit "namespaceId") (lit "tenant") tenant-ne-namespace,
)

-- A change is asked for in the client's namespace, if it has one, and in the caller's otherwise.
pub change_params-tenant :
    (cc : ClientConfig) (c : Change) (params : Params)
    → load (lit "tenant") (change_params cc c params) ≡ tenant_of cc params
change_params-tenant cc instance_update params = add_tenant-tenant cc params
change_params-tenant cc (config_edit user) params =
    load-store (lit "username") (lit "tenant") user (add_tenant cc params)
    ∙ (rw (==_ne (lit "username") (lit "tenant") tenant-ne-username) (add_tenant-tenant cc params))
change_params-tenant cc _ params = add_tenant-tenant cc params

module _ {W : Type 0} (server : Server W) (cc : ClientConfig)
    (decode : Decoder HistoryConfigItem) where
  -- Without a "nid" nothing is sent and the caller's map is left alone.
  pub history_detail_missing :
      (missing : GoString) (params : Params) (w : W)
      → load (lit "nid") params ≡ none
      → get_history_nacos_config_detail server cc missing decode params w
        ≡ record { result = err missing; params = params; world = w }
  unfolding get_history_nacos_config_detail
  history_detail_missing missing params w h = rw (h, get_history_nacos_config_detail)
