-- ===== src/Nacos/Admin/Mutations.antt =====
-- The calls that change something on the server.
use panda_go.Prelude.{list_eq, nat_eq}
use panda_go.Go.Text.{GoString, lit}
use panda_go.Go.Map.{store}
use panda_go.Nacos.Admin.{
  ClientConfig, Server, Params, Reply, method_post, method_put, method_delete, add_tenant, request,
  check_answer, send,
}

module _ {W : Type 0} (server : Server W) (cc : ClientConfig) where
  -- UpdateNacosServiceInstance
  unfoldable pub update_nacos_service_instance : Params → W → Reply (Unit {0}) W
  update_nacos_service_instance params w =
      send server (check_answer (lit "ok"))
        (request cc server.service_path method_put (add_tenant cc params)) w

  -- CreateNacosService
  unfoldable pub create_nacos_service : Params → W → Reply (Unit {0}) W
  create_nacos_service params w =
      send server (check_answer (lit "ok"))
        (request cc server.service_info_path method_post (add_tenant cc params)) w

  -- UpdateNacosService
  unfoldable pub update_nacos_service : Params → W → Reply (Unit {0}) W
  update_nacos_service params w =
      send server (check_answer (lit "ok"))
        (request cc server.service_info_path method_put (add_tenant cc params)) w

  -- DeleteNacosService
  unfoldable pub delete_nacos_service : Params → W → Reply (Unit {0}) W
  delete_nacos_service params w =
      send server (check_answer (lit "ok"))
        (request cc server.service_info_path method_delete (add_tenant cc params)) w

  -- EditNacosConfigDetail
  unfoldable pub edit_nacos_config_detail : GoString → Params → W → Reply (Unit {0}) W
  edit_nacos_config_detail user_name params w =
      send server (check_answer (lit "true"))
        (request cc server.config_path method_post
          (store (lit "username") user_name (add_tenant cc params)))
        w
