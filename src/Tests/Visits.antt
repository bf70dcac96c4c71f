-- ===== src/Tests/Visits.antt =====
-- The handlers of panda-account and panda-auth, over the cluster of Tests.Calls.
use panda_go.Prelude.{ℕ, refl, none, [], ◌∷◌, arith, nat_eq, list_eq, list_beq}
use panda_go.Go.Text.{GoString, lit, to_lower, trim_suffix, has_suffix}
use panda_go.Go.Map.{load, store, delete}
use panda_go.Go.Error.{MaybeError, Result, ok, err}
use panda_go.Utils.Target.{get_target}
use panda_go.Utils.SyncMap.{text}
use panda_go.Utils.Kebab.{camel_to_kebab_case, kebab_loop, is_upper}
use panda_go.Grpc.World.{
  World, get_service_namespace, set_service_name2conn_map, get_conn_from_service_map,
}
use panda_go.Grpc.Dial.{get_conn, dial_target, dial_wrapper, keep_dialled}
use panda_go.Grpc.Clients.{client_kind, create_client, create_client_wrapper}
use panda_go.Services.{Written, hello_world, handle_test, say_hello}
use panda_go.Services.Answers.{pages_of, text_of, Answers, handle_test-Answers, say_hello-Answers}
use panda_go.Tests.Calls.{shop, outside, fresh, value_or, empty-Routed}

abbrev knows_both : World GoString ℕ ℕ
knows_both = record fresh {
  service2namespace_map = (lit "panda-auth", text shop) ∷ (lit "panda-account", text shop) ∷ [];
}

-- panda-auth replies, and panda-account is down.
abbrev hello_reply : GoString → World GoString ℕ ℕ → Result GoString × World GoString ℕ ℕ
hello_reply request w = (ok (lit "hi"), w)

abbrev greeted : GoString → GoString → World GoString ℕ ℕ → Result GoString × World GoString ℕ ℕ
greeted conn request w = hello_reply request w

abbrev down : GoString → GoString → World GoString ℕ ℕ → Result GoString × World GoString ℕ ℕ
down conn request w = (err (lit "down"), w)

abbrev visited : Written × World GoString ℕ ℕ
visited = value_or ([], fresh) (handle_test outside (lit "key") greeted knows_both)

handle_test-Answers_example :
    Answers outside
      (lit "key")
      greeted
      (lit "PandaAuthClient")
      (lit "panda-auth")
      (lit "11")
      ((200, hello_world) ∷ [])
      pages_of
      knows_both
      (visited.0, visited.1)
unfolding handle_test create_client_wrapper create_client client_kind get_conn
    get_conn_from_service_map dial_wrapper keep_dialled camel_to_kebab_case kebab_loop is_upper
    to_lower trim_suffix has_suffix get_service_namespace dial_target set_service_name2conn_map
    get_target store delete load list_beq lit
handle_test-Answers_example =
    handle_test-Answers outside (lit "key") greeted (λ t o c h. ground arith) knows_both visited.1
      visited.0 empty-Routed refl

abbrev said : (GoString × MaybeError) × World GoString ℕ ℕ
said = value_or (([], none), fresh) (say_hello outside (lit "key") down knows_both)

say_hello-Answers_example :
    Answers outside
      (lit "key")
      down
      (lit "PandaAccountClient")
      (lit "panda-account")
      (lit "123231")
      (lit "lgxsdjkl", none)
      text_of
      knows_both
      (said.0, said.1)
unfolding say_hello create_client_wrapper create_client client_kind get_conn
    get_conn_from_service_map dial_wrapper keep_dialled camel_to_kebab_case kebab_loop is_upper
    to_lower trim_suffix has_suffix get_service_namespace dial_target set_service_name2conn_map
    get_target store delete load list_beq lit
say_hello-Answers_example =
    say_hello-Answers outside (lit "key") down (λ t o c h. ground arith) knows_both said.1 said.0
      empty-Routed refl
