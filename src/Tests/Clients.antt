-- ===== src/Tests/Clients.antt =====
-- Clients and the gateway, over the cluster of Tests.Calls.
use panda_go.Prelude.{ℕ, refl, Option, none, List, [], ◌∷◌, arith, nat_eq, list_eq, All}
use panda_go.Go.Text.{GoString, lit}
use panda_go.Go.Map.{load}
use panda_go.Go.Error.{MaybeError}
use panda_go.Utils.Target.{get_target}
use panda_go.Grpc.World.{World, get_service_namespace}
use panda_go.Grpc.Dial.{get_conn}
use panda_go.Gateway.{dial_services, register_services}
use panda_go.Gateway.Services.{Leads, dial_services-Leads}
use panda_go.Grpc.Clients.{
  Client, panda_auth_client, client_kind, create_client, Serves, create_client-Serves,
}
use panda_go.Utils.Kebab.{camel_to_kebab_case, kebab_loop, is_upper}
use panda_go.Go.Text.{to_lower}
use panda_go.Go.Text.{trim_suffix, has_suffix}
use panda_go.Grpc.Dial.{dial_target, dial_wrapper, keep_dialled}
use panda_go.Grpc.World.{set_service_name2conn_map, get_conn_from_service_map}
use panda_go.Utils.SyncMap.{text}
use panda_go.Go.Map.{store, delete}
use panda_go.Prelude.{list_beq}
use panda_go.Tests.Calls.{shop, outside, fresh, value_or, empty-Routed}

abbrev auth : Client GoString
auth = record { kind = panda_auth_client; conn = get_target (lit "panda-auth") shop }

-- The namespace of panda-auth is known.
abbrev knows_auth : World GoString ℕ ℕ
knows_auth = record fresh { service2namespace_map = (lit "panda-auth", text shop) ∷ [] }

abbrev created : (Option (Client GoString) × MaybeError) × World GoString ℕ ℕ
created =
    value_or ((none, none), fresh)
      (create_client outside (lit "key") (lit "PandaAuthClient") knows_auth)

create_client-Serves_example :
    Serves outside (lit "key") (lit "PandaAuthClient") auth none created.1
unfolding create_client client_kind get_conn get_conn_from_service_map dial_wrapper keep_dialled
    camel_to_kebab_case kebab_loop is_upper to_lower trim_suffix has_suffix get_service_namespace
    dial_target set_service_name2conn_map get_target store delete load list_beq lit
create_client-Serves_example =
    create_client-Serves outside (lit "key") (λ t o c h. ground arith) (lit "PandaAuthClient")
      knows_auth created.1 auth none empty-Routed refl

abbrev knows_all : World GoString ℕ ℕ
knows_all = record fresh {
  service2namespace_map =
      (lit "panda-auth", text shop)
      ∷ (lit "panda-account", text shop)
      ∷ (lit "panda-export", text shop)
      ∷ [];
}

abbrev dialled : List (GoString × GoString) × World GoString ℕ ℕ
dialled = value_or ([], fresh) (dial_services outside (lit "key") knows_all)

dial_services-Leads_example : All (Leads outside) dialled.0
unfolding dial_services register_services dial_wrapper get_service_namespace dial_target get_target
    load list_beq lit
dial_services-Leads_example =
    dial_services-Leads outside (lit "key") (λ t o c h. ground arith) dialled.0 knows_all dialled.1
      refl
