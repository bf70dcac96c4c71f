-- ===== src/Grpc/Refusals.antt =====
-- What the retrying interceptor makes of a server that refuses a call.
use panda_go.Prelude.{
  ℕ, zero, suc, false, ◌≡◌, refl, sym, ◌∙◌, some, [], ◌∷◌, ◌++◌, replicate, append-nil,
  append_assoc, ◌==◌,
}
use panda_go.Go.Text.{GoString}
use panda_go.Go.Error.{Error}
use panda_go.Go.Outcome.{returns}
use panda_go.Utils.ErrorCode.{ErrorReader, parse_rpc_error_code, code_unavailable, int_eq}
use panda_go.Grpc.World.{Outside, World}
use panda_go.Grpc.Retry.{
  Invoker, again, max_retries, invoke, settle, round, retry_loop,
  retry_grpc_unary_client_interceptor,
}

-- Every call on the connection ends in an error other than "unavailable".
abbrev pub Refuses : {C W : Type 0} → ErrorReader → Invoker C W → C → Type 0
Refuses {W} reader invoker c =
    (o : W)
    → (e : Error) × ((invoker c o).0 ≡ some e)
      × ((parse_rpc_error_code reader e == code_unavailable) ≡ false)

module _ {C X W : Type 0} (outside : Outside C W) (key : GoString) (reader : ErrorReader)
    (invoker : Invoker C W) where
  refused_round :
      (cc0 : C) (w : World C X W)
      → Refuses reader invoker cc0
      → round outside key reader invoker cc0 false w
        ≡ returns (again cc0 false (invoke outside key reader invoker cc0 w).1)
  unfolding round settle invoke
  refused_round cc0 w refuses = let (e, p, q) = refuses w.outside in rw (p, settle) (rw q)

  refused_loop :
      (n : ℕ) (cc0 : C) (w : World C X W)
      → Refuses reader invoker cc0
      → (w' : World C X W) × (retry_loop outside key reader invoker n cc0 false w
          ≡ returns (some max_retries, w'))
        × (w'.invoked ≡ w.invoked ++ replicate n cc0)
  unfolding retry_loop
  refused_loop zero cc0 w refuses = (w, refl, sym (append-nil w.invoked))
  refused_loop (suc n) cc0 w refuses =
      let v = (invoke outside key reader invoker cc0 w).1 in
      let (w', p, q) = refused_loop n cc0 v refuses in
      (
        w',
        rw (refused_round cc0 w refuses, retry_loop) p,
        q ∙ (unfold invoke in append_assoc w.invoked (cc0 ∷ []) (replicate n cc0)),
      )

  -- Whatever error a server gives, unless it is "unavailable", the call is made three times on the same
  -- connection, and the error that the caller sees is "Max retries reached".
  pub interceptor_refused :
      (cc0 : C) (w : World C X W)
      → Refuses reader invoker cc0
      → (w' : World C X W) × (retry_grpc_unary_client_interceptor outside key reader invoker cc0 w
          ≡ returns (some max_retries, w'))
        × (w'.invoked ≡ w.invoked ++ cc0 ∷ cc0 ∷ cc0 ∷ [])
  unfolding retry_grpc_unary_client_interceptor
  interceptor_refused cc0 w refuses = refused_loop 3 cc0 w refuses
