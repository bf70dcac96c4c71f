-- ===== src/Tests/Calls.antt =====
-- Calls to a service "svc", which the cluster lists in the namespace "shop".
use panda_go.Prelude.{
  subst, sym, ◌≢◌, ℕ, ◌+◌, ◌≡◌, refl, none, some, List, [], ◌∷◌, arith, if◌then◌else◌, nat_eq,
  list_eq, ◌==◌,
}
use panda_go.Go.Text.{GoString, lit, is_empty}
use panda_go.Go.Map.{load}
use panda_go.Go.Error.{MaybeError, Result, ok, err}
use panda_go.Go.Outcome.{Outcome, returns, panics}
use panda_go.K8s.{
  Service, lists, Cache, Entity, get_new_service_entity, from_cache, namespaces_of, ask_cluster,
}
use panda_go.K8s.Discovery.{Chosen, discovered}
use panda_go.K8s.Answers.{IsListed}
use panda_go.Grpc.Returning.{interceptor-Returns}
use panda_go.Utils.Arrays.{in_array}
use panda_go.Utils.ErrorCode.{ErrorReader}
use panda_go.Utils.Target.{get_target}
use panda_go.Grpc.World.{Outside, World, get_service_namespace, on_relation}
use panda_go.Grpc.Dial.{get_conn}
use panda_go.Grpc.Retry.{Invoker, retry_grpc_unary_client_interceptor, max_retries}
use panda_go.Grpc.Routes.{Routed, Connected, get_conn-Connected}
use panda_go.Grpc.Attempts.{Ran}
use panda_go.Grpc.Refusals.{interceptor_refused}
use panda_go.Grpc.Relation.{on_relation-resolves}
use panda_go.Grpc.Retry.{retry_loop, round, settle, invoke, remember, redial, redirect}
use panda_go.Utils.ErrorCode.{parse_rpc_error_code}
use panda_go.Utils.Target.{get_svc_name_and_ns_from_target, two_parts}
use panda_go.Go.Text.{split, trim_suffix, has_suffix}
use panda_go.Grpc.Dial.{discover, dial_target, dial_wrapper, dial_discovered, keep_dialled}
use panda_go.K8s.{choose_namespace, sort_namespaces, before}
use panda_go.Go.Sort.{sort_slice, insert_by}
use panda_go.Grpc.World.{
  set_service_namespace, set_service_name2conn_map, get_conn_from_service_map,
}
use panda_go.Utils.SyncMap.{get_normal_map_from_sync_map, collect_texts}
use panda_go.Go.Map.{store, delete}
use panda_go.Prelude.{list_beq}

abbrev svc : GoString
svc = lit "svc"

abbrev pub shop : GoString
shop = lit "shop"

abbrev listed : List Service
listed = record { name = svc; namespace = shop } ∷ []

-- A connection is its target; the state outside counts the published configurations.
abbrev pub outside : Outside GoString ℕ
outside = record {
  dial = λ t o. (ok t, o);
  target = λ c. c;
  list_services = λ o. some (lists listed);
  publish = λ k v o. (none, o + 1);
  marshal = λ m. [];
  unmarshal = λ s. ((svc, s) ∷ [], none);
}

abbrev pub fresh : World GoString ℕ ℕ
fresh = record {
  service_name2conn_map = [];
  service2namespace_map = [];
  service2namespaces_mp = [];
  invoked = [];
  outside = 0;
}

abbrev reader : ErrorReader
reader = record { status_code = λ e. some (if is_empty e then 14 else 3); json_code = λ e. none }

-- A server that is down at "svc.old:50051" and answers elsewhere.
abbrev moved : Invoker GoString ℕ
moved c o = ((if c == get_target svc (lit "old") then some [] else none), o)

abbrev refusing : Invoker GoString ℕ
refusing c o = (some (lit "no"), o)

abbrev old_target : GoString
old_target = get_target svc (lit "old")

pub empty-Routed : Routed outside []
unfolding load
empty-Routed = record { routes = λ name c h. cc }

shop_listed : namespaces_of svc listed ≢ []
unfolding namespaces_of list_beq lit
shop_listed h = ground (arith, h)

abbrev pub value_or : {A : Type 0} → A → Outcome A → A
value_or a panics = a
value_or a (returns b) = b

abbrev after_move : MaybeError × World GoString ℕ ℕ
after_move =
    value_or (none, fresh)
      (retry_grpc_unary_client_interceptor outside (lit "key") reader moved old_target fresh)

-- The second call reaches the service where the cluster lists it, and the connection is kept.
moved_kept :
    (after_move.0 ≡ none) × (after_move.1.service_name2conn_map ≡ (svc, get_target svc shop) ∷ [])
unfolding retry_grpc_unary_client_interceptor retry_loop round settle invoke remember redial
    redirect parse_rpc_error_code get_svc_name_and_ns_from_target two_parts split trim_suffix
    has_suffix discover get_new_service_entity ask_cluster from_cache choose_namespace namespaces_of
    sort_namespaces sort_slice insert_by before in_array dial_target set_service_namespace
    set_service_name2conn_map get_target store delete load list_beq lit get_normal_map_from_sync_map
    collect_texts
moved_kept = (refl, refl)

abbrev connected : Result GoString × World GoString ℕ ℕ
connected = value_or (err [], fresh) (get_conn outside (lit "key") svc fresh)

get_conn-Connected_example : Connected outside (lit "key") svc connected
unfolding get_conn get_conn_from_service_map dial_wrapper dial_discovered keep_dialled
    get_service_namespace discover get_new_service_entity ask_cluster from_cache choose_namespace
    namespaces_of sort_namespaces sort_slice insert_by before in_array dial_target
    set_service_namespace set_service_name2conn_map get_target store delete load list_beq lit
    get_normal_map_from_sync_map collect_texts
get_conn-Connected_example =
    get_conn-Connected outside (lit "key") (λ t o c h. ground arith) svc fresh connected
      empty-Routed refl

interceptor_refused_example :
    (w : World GoString ℕ ℕ) × (retry_grpc_unary_client_interceptor outside
        (lit "key")
        reader
        refusing
        old_target
        fresh
      ≡ returns (some max_retries, w))
    × (w.invoked ≡ old_target ∷ old_target ∷ old_target ∷ [])
unfolding parse_rpc_error_code lit
interceptor_refused_example =
    interceptor_refused outside (lit "key") reader refusing old_target fresh
      (λ o. (lit "no", refl, refl))

on_relation-resolves_example :
    (get_service_namespace svc (on_relation outside shop fresh) ≡ shop)
    × (load svc (on_relation outside shop fresh).service_name2conn_map ≡ none)
unfolding get_service_namespace load list_beq lit
on_relation-resolves_example = on_relation-resolves outside shop svc fresh refl (refl, tt) tt

discovered_example :
    (e : Entity) × (cache : Cache) × (get_new_service_entity (some (lists listed)) svc [] []
      ≡ returns (e, cache))
    × Chosen [] (namespaces_of svc listed) e
unfolding from_cache load namespaces_of in_array list_beq lit
discovered_example = discovered svc [] [] listed refl (λ h. ground (arith, h)) refl

-- Every connection is one to "svc.shop:50051", which is always down.
abbrev one_target : Outside GoString ℕ
one_target = record outside { target = λ c. get_target svc shop }

abbrev down : Invoker GoString ℕ
down c o = (some [], o)

one_target-listed :
    (c : GoString) (o : ℕ) (name ns : GoString)
    → get_svc_name_and_ns_from_target (get_target svc shop) ≡ ok (name, ns)
    → IsListed (some (lists listed)) name
unfolding get_svc_name_and_ns_from_target two_parts split trim_suffix has_suffix list_beq get_target
    lit namespaces_of
one_target-listed c o name ns h =
    let same : svc ≡ name = cc in
    subst (λ n. IsListed (some (lists listed)) n) same
      (λ services e f.
        let k : listed ≡ services = cc in
        shop_listed (subst (λ l. namespaces_of svc l ≡ []) (sym k) f))

interceptor-Returns_example :
    (r : MaybeError × World GoString ℕ ℕ) × (retry_grpc_unary_client_interceptor one_target
        (lit "key")
        reader
        down
        old_target
        fresh
      ≡ returns r)
    × Ran one_target (lit "key") reader down 3 fresh r
interceptor-Returns_example =
    interceptor-Returns one_target (lit "key") reader down one_target-listed old_target fresh
