-- ===== src/Grpc/Returning.antt =====
-- When the retrying interceptor and GetConn return.
use panda_go.Prelude.{
  ℕ, zero, suc, [], ◌≡◌, refl, Bool, false, none, some, Bool-cases, Option-cases, inl, inr, ◌==◌,
  nat_eq, list_eq,
}
use panda_go.Go.Text.{GoString, is_empty}
use panda_go.Go.Map.{load}
use panda_go.Go.Error.{MaybeError, Result, ok, err}
use panda_go.Go.Outcome.{Outcome, returns}
use panda_go.K8s.{Entity, Cache}
use panda_go.K8s.Answers.{Returns, IsListed, get_new_service_entity-Returns}
use panda_go.Utils.ErrorCode.{ErrorReader, parse_rpc_error_code, code_unavailable, int_eq}
use panda_go.Utils.Target.{get_svc_name_and_ns_from_target}
use panda_go.Grpc.World.{Outside, World, get_service_namespace, get_conn_from_service_map}
use panda_go.Grpc.Dial.{with_cache, discover, dial_wrapper, get_conn}
use panda_go.Grpc.Retry.{
  Invoker, Round, leave, again, invoke, redial_found, redirect, settle, round, retry_loop,
  retry_grpc_unary_client_interceptor,
}
use panda_go.Grpc.Attempts.{Ran, interceptor-Ran}

-- Every service that the target of a connection names is listed, whenever the cluster answers by a list.
abbrev pub TargetsAreListed : {C W : Type 0} → Outside C W → Type 0
TargetsAreListed {C} {W} outside =
    (c : C) (o : W) (name ns : GoString)
    → get_svc_name_and_ns_from_target (outside.target c) ≡ ok (name, ns)
    → IsListed (outside.list_services o) name

module _ {C X W : Type 0} (outside : Outside C W) (key : GoString) where
  with_cache-Returns :
      (w : World C X W) (o : Outcome (Entity × Cache)) → Returns o → Returns (with_cache w o)
  with_cache-Returns w o (a, e) = rw e (_, refl)

  discover-Returns :
      (name origin : GoString) (w : World C X W)
      → IsListed (outside.list_services w.outside) name
      → Returns (discover outside key name origin w)
  unfolding discover
  discover-Returns name origin w h =
      with_cache-Returns w _
        (get_new_service_entity-Returns _ name origin w.service2namespaces_mp h)

  dial_wrapper-Returns :
      (name : GoString) (w : World C X W)
      → IsListed (outside.list_services w.outside) name
      → Returns (dial_wrapper outside key name w)
  unfolding dial_wrapper
  dial_wrapper-Returns name w h = elim (Bool-cases (is_empty (get_service_namespace name w))) [
    | inl p ↦ let (a, e) = discover-Returns name [] w h in rw (p, e, dial_wrapper) (_, refl)
    | inr p ↦ rw (p, dial_wrapper) (_, refl)
  ]

  -- If the cluster, when it answers by a list, lists the service, then GetConn returns.
  pub get_conn-Returns :
      (name : GoString) (w : World C X W)
      → IsListed (outside.list_services w.outside) name
      → Returns (get_conn outside key name w)
  unfolding get_conn get_conn_from_service_map
  get_conn-Returns name w h = elim (Option-cases (load name w.service_name2conn_map)) [
    | inl e ↦ let (a, k) = dial_wrapper-Returns name w h in rw (e, k, get_conn) (_, refl)
    | inr (c, e) ↦ rw (e, get_conn) (_, refl)
  ]

module _ {C X W : Type 0} (outside : Outside C W) (key : GoString) (reader : ErrorReader)
    (invoker : Invoker C W) (listed : TargetsAreListed outside) where
  redial_found-Returns :
      (name : GoString) (o : Outcome (Entity × World C X W))
      → Returns o
      → Returns (redial_found outside key reader invoker name o)
  redial_found-Returns name o (a, e) = rw e (_, refl)

  redirect-Returns :
      (cc0 : C) (w : World C X W) → Returns (redirect outside key reader invoker cc0 w)
  unfolding redirect
  redirect-Returns cc0 w = go (get_svc_name_and_ns_from_target (outside.target cc0)) refl
    where
      go :
          (r : Result (GoString × GoString))
          → get_svc_name_and_ns_from_target (outside.target cc0) ≡ r
          → Returns (redirect outside key reader invoker cc0 w)
      go (err e) k = rw (k, redirect) (_, refl)
      go (ok (name, ns)) k =
          rw (k, redirect)
            (redial_found-Returns name _
              (discover-Returns outside key name ns w (listed cc0 w.outside name ns k)))

  settle-Returns :
      (cc0 : C) (change : Bool) (e : MaybeError) (w : World C X W)
      → Returns (settle outside key reader invoker cc0 change (e, w))
  unfolding settle
  settle-Returns cc0 change none w = (_, refl)
  settle-Returns cc0 change (some e) w =
      elim (Bool-cases (parse_rpc_error_code reader e == code_unavailable)) [
        | inl p ↦ rw (p, settle) (redirect-Returns cc0 w)
        | inr p ↦ rw (p, settle) (_, refl)
      ]

  retry_loop-Returns :
      (n : ℕ) (cc0 : C) (change : Bool) (w : World C X W)
      → Returns (retry_loop outside key reader invoker n cc0 change w)
  unfolding retry_loop round
  retry_loop-Returns zero cc0 change w = (_, refl)
  retry_loop-Returns (suc n) cc0 change w =
      let (r, e) =
        settle-Returns cc0 change (invoke outside key reader invoker cc0 w).0
          (invoke outside key reader invoker cc0 w).1 in
      go r e (retry_loop-Returns n)
    where
      go :
          (r : Round C X W)
          → settle outside key reader invoker cc0 change (invoke outside key reader invoker cc0 w)
            ≡ returns r
          → ((cc1 : C) (b : Bool) (v : World C X W)
              → Returns (retry_loop outside key reader invoker n cc1 b v))
          → Returns (retry_loop outside key reader invoker (suc n) cc0 change w)
      go (leave d v) e rest = rw (e, retry_loop, round) (_, refl)
      go (again cc1 b v) e rest = rw (e, retry_loop, round) (rest cc1 b v)

  -- If every service that the target of a connection names is listed, whenever the cluster answers by a
  -- list, then the interceptor returns, whatever the servers answer, after at most three calls; and if
  -- every connection of the map led to its service before, every one does so after.
  pub interceptor-Returns :
      (cc0 : C) (w : World C X W)
      → (r : MaybeError × World C X W) × (retry_grpc_unary_client_interceptor outside key reader
            invoker cc0 w
          ≡ returns r)
        × Ran outside key reader invoker 3 w r
  unfolding retry_grpc_unary_client_interceptor
  interceptor-Returns cc0 w =
      let (r, e) = retry_loop-Returns 3 cc0 false w in
      (r, e, interceptor-Ran outside key reader invoker cc0 w r e)
