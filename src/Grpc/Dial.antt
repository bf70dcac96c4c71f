-- ===== src/Grpc/Dial.antt =====
-- DialWrapper and GetConn of common/grpc-wrapper/grpc_client_wrapper/grpc-client-wrapper.go.
use panda_go.Prelude.{none, some, [], if◌then◌else◌}
use panda_go.Go.Text.{GoString, is_empty}
use panda_go.Go.Error.{Result, ok, err}
use panda_go.Go.Outcome.{Outcome, returns, panics, ◌>>=◌}
use panda_go.K8s.{Entity, Cache, get_new_service_entity}
use panda_go.Utils.Target.{get_target}
use panda_go.Grpc.World.{
  Outside, World, get_service_namespace, set_service_namespace, get_conn_from_service_map,
  set_service_name2conn_map,
}

abbrev pub with_cache :
    {C X W : Type 0} → World C X W → Outcome (Entity × Cache) → Outcome (Entity × World C X W)
with_cache w panics = panics
with_cache w (returns (e, cache)) = returns (e, record w { service2namespaces_mp = cache })

module _ {C X W : Type 0} (outside : Outside C W) (key : GoString) where
  -- grpc.Dial(utils.GetTarget(serviceName, namespace), …)
  unfoldable pub dial_target : GoString → GoString → World C X W → Result C × World C X W
  dial_target name namespace w =
      let (r, o) = outside.dial (get_target name namespace) w.outside in
      (r, record w { outside = o })

  -- k8s.GetNewServiceEntity on the shared cache
  unfoldable pub discover : GoString → GoString → World C X W → Outcome (Entity × World C X W)
  discover name origin w =
      with_cache w (
        get_new_service_entity (outside.list_services w.outside) name origin
          w.service2namespaces_mp)

  unfoldable pub dial_discovered : GoString → Entity → World C X W → Result C × World C X W
  dial_discovered name (is_change, namespace, some e) w = (err e, w)
  dial_discovered name (is_change, namespace, none) w =
      dial_target name namespace (set_service_namespace outside key name namespace w)

  -- DialWrapper
  unfoldable pub dial_wrapper : GoString → World C X W → Outcome (Result C × World C X W)
  dial_wrapper name w =
      if is_empty (get_service_namespace name w)
      then (do (e, w') ← discover name [] w; returns (dial_discovered name e w'))
      else returns (dial_target name (get_service_namespace name w) w)

  abbrev pub keep_if_missing : GoString → C → World C X W → World C X W
  keep_if_missing name conn w = elim (get_conn_from_service_map name w) [
    | ok known ↦ w
    | err e ↦ set_service_name2conn_map name conn w
  ]

  unfoldable pub keep_dialled : GoString → Result C × World C X W → Result C × World C X W
  keep_dialled name (err e, w) = (err e, w)
  keep_dialled name (ok conn, w) = (ok conn, keep_if_missing name conn w)

  -- GetConn
  unfoldable pub get_conn : GoString → World C X W → Outcome (Result C × World C X W)
  get_conn name w = elim (get_conn_from_service_map name w) [
    | ok conn ↦ returns (ok conn, w)
    | err e ↦ do r ← dial_wrapper name w; returns (keep_dialled name r)
  ]
