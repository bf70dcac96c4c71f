-- ===== src/Gateway/Services.antt =====
-- Where the gateway forwards the requests of each service.
use panda_go.Prelude.{◌≡◌, refl, List, [], ◌∷◌, All, All-append, subst}
use panda_go.Go.Text.{GoString}
use panda_go.Go.Error.{Result, ok, err}
use panda_go.Go.Outcome.{returns, >>=-eq-returns, returns_inj}
use panda_go.Grpc.World.{Outside, World}
use panda_go.Grpc.Dial.{dial_wrapper}
use panda_go.Grpc.Routes.{Routes, DialsTarget, dial_wrapper-Dialled}
use panda_go.Gateway.{register, register_services, dial_services}

-- The connection of a registered service leads to it.
abbrev pub Leads : {C W : Type 0} → Outside C W → GoString × C → Type 0
Leads outside (name, c) = Routes outside name c

module _ {C X W : Type 0} (outside : Outside C W) (key : GoString) where
  register-Leads :
      (name : GoString) (regs : List (GoString × C)) (r : Result C × World C X W)
      → All (Leads outside) regs
      → ((c : C) → r.0 ≡ ok c → Routes outside name c)
      → All (Leads outside) (register outside key name regs r).0
  register-Leads name regs (ok c, w) h route =
      All-append (Leads outside) regs ((name, c) ∷ []) h (route c refl, tt)
  register-Leads name regs (err e, w) h route = h

  register_services-Leads :
      DialsTarget outside
      → (names : List GoString) (regs all : List (GoString × C)) (w v : World C X W)
      → All (Leads outside) regs
      → register_services outside key names regs w ≡ returns (all, v)
      → All (Leads outside) all
  unfolding register_services
  register_services-Leads law [] regs all w v h k =
      subst (λ p. All (Leads outside) p.0) (returns_inj k) h
  register_services-Leads law (name ∷ names) regs all w v h k =
      let (r, dialled, rest) = >>=-eq-returns (dial_wrapper outside key name w) _ k in
      let found = dial_wrapper-Dialled outside key law name w r dialled in
      register_services-Leads law names (register outside key name regs r).0 all
        (register outside key name regs r).1 v (register-Leads name regs r h found.routes) rest

  -- If a dialled connection leads to its target, then every service for which the gateway has
  -- registered its handlers is served over a connection that leads to this service.
  pub dial_services-Leads :
      DialsTarget outside
      → (regs : List (GoString × C)) (w v : World C X W)
      → dial_services outside key w ≡ returns (regs, v)
      → All (Leads outside) regs
  unfolding dial_services
  dial_services-Leads law regs w v h = register_services-Leads law _ [] regs w v tt h
