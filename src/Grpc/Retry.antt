-- ===== src/Grpc/Retry.antt =====
-- RetryGrpcUnaryClientInterceptor of common/interceptor/grpc-client-interceptor/interceptor.go.
use panda_go.Prelude.{
  ℕ, zero, suc, Bool, true, false, none, some, [], ◌∷◌, ◌++◌, if◌then◌else◌, ◌==◌,
}
use panda_go.Go.Text.{GoString, lit}
use panda_go.Go.Error.{Error, MaybeError, Result, ok, err}
use panda_go.Go.Outcome.{Outcome, returns, panics}
use panda_go.K8s.{Entity}
use panda_go.Utils.ErrorCode.{ErrorReader, parse_rpc_error_code, code_unavailable, int_eq}
use panda_go.Utils.Target.{get_svc_name_and_ns_from_target}
use panda_go.Grpc.World.{Outside, World, set_service_namespace, set_service_name2conn_map}
use panda_go.Grpc.Dial.{dial_target, discover}

-- The rest of the chain of interceptors: one call on a connection.
abbrev pub Invoker : Type 0 → Type 0 → Type 0
Invoker C W = C → W → MaybeError × W

-- Where one round of the loop leaves it: at a return, or in front of the next round with the
-- connection and isConnChange.
pub data Round (C X W : Type 0) : Type 0 where
  leave : MaybeError → World C X W → Round C X W
  again : C → Bool → World C X W → Round C X W

abbrev pub max_retries : Error
max_retries = lit "Max retries reached"

module _ {C X W : Type 0} (outside : Outside C W) (key : GoString) (reader : ErrorReader)
    (invoker : Invoker C W) where
  unfoldable pub invoke : C → World C X W → MaybeError × World C X W
  invoke cc w =
      let (e, o) = invoker cc w.outside in
      (e, record w { invoked = w.invoked ++ cc ∷ []; outside = o })

  -- After a success on a connection that has changed
  unfoldable pub remember : C → World C X W → World C X W
  remember cc w = elim (get_svc_name_and_ns_from_target (outside.target cc)) [
    | ok (name, ns) ↦ set_service_name2conn_map name cc w
    | err e ↦ w
  ]

  abbrev pub redialled : Result C × World C X W → Round C X W
  redialled (ok cc, w) = again cc true w
  redialled (err e, w) = leave (some e) w

  unfoldable pub redial : GoString → Entity → World C X W → Round C X W
  redial name (is_change, namespace, some e) w = leave (some e) w
  redial name (is_change, namespace, none) w =
      redialled (
        dial_target outside key name namespace (set_service_namespace outside key name namespace w))

  abbrev pub redial_found : GoString → Outcome (Entity × World C X W) → Outcome (Round C X W)
  redial_found name panics = panics
  redial_found name (returns (e, w)) = returns (redial name e w)

  -- The branch for an unavailable server
  unfoldable pub redirect : C → World C X W → Outcome (Round C X W)
  redirect cc w = elim (get_svc_name_and_ns_from_target (outside.target cc)) [
    | err e ↦ returns (leave (some e) w)
    | ok (name, ns) ↦ redial_found name (discover outside key name ns w)
  ]

  unfoldable pub settle : C → Bool → MaybeError × World C X W → Outcome (Round C X W)
  settle cc change (none, w) = returns (leave none (if change then remember cc w else w))
  settle cc change (some e, w) =
      if parse_rpc_error_code reader e == code_unavailable
      then redirect cc w
      else returns (again cc change w)

  -- One round of the loop
  unfoldable pub round : C → Bool → World C X W → Outcome (Round C X W)
  round cc change w = settle cc change (invoke cc w)

  -- The loop, with `n` rounds left
  unfoldable pub retry_loop : ℕ → C → Bool → World C X W → Outcome (MaybeError × World C X W)
  retry_loop zero cc change w = returns (some max_retries, w)
  retry_loop (suc n) cc change w = elim (round cc change w) [
    | panics ↦ panics
    | returns (leave e w') ↦ returns (e, w')
    | returns (again cc' change' w') ↦ retry_loop n cc' change' w'
  ]

  -- RetryGrpcUnaryClientInterceptor
  unfoldable pub retry_grpc_unary_client_interceptor :
      C → World C X W → Outcome (MaybeError × World C X W)
  retry_grpc_unary_client_interceptor cc w = retry_loop 3 cc false w
