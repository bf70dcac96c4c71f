-- ===== src/Gateway.antt =====
-- panda-grpc-gw/main.go: the prefixes that the gateway takes from a path, and the services that its
-- main function dials.
pub mod Paths
pub mod Services
pub mod Swagger
pub mod Common
use panda_go.Prelude.{
  ℕ, Bool, true, false, none, some, Option, List, [], ◌∷◌, ◌++◌, nat_beq, if◌then◌else◌,
}
use panda_go.Go.Text.{GoString, lit}
use panda_go.Go.Error.{Result, ok, err}
use panda_go.Go.Outcome.{Outcome, returns, panics, ◌>>=◌}
use panda_go.Grpc.World.{Outside, World}
use panda_go.Grpc.Dial.{dial_wrapper}

-- The rest of a text after a prefix
unfoldable pub strip_prefix : GoString → GoString → Option GoString
strip_prefix [] s = some s
strip_prefix (p ∷ pre) [] = none
strip_prefix (p ∷ pre) (c ∷ s) = if nat_beq p c then strip_prefix pre s else none

abbrev pub or_keep : ℕ → Option GoString → GoString → GoString
or_keep c (some rest) later = rest
or_keep c none later = c ∷ later

-- strings.Replace(s, pattern, "", 1), for a pattern that is not empty
unfoldable pub remove_first : GoString → GoString → GoString
remove_first pattern [] = []
remove_first pattern (c ∷ s) = or_keep c (strip_prefix pattern (c ∷ s)) (remove_first pattern s)

abbrev pub prefix2remove : List GoString
prefix2remove = lit "/panda-gin-swagger" ∷ lit "/panda-grpc-gw" ∷ []

abbrev pub remove_each : List GoString → GoString → GoString
remove_each [] path = path
remove_each (prefix ∷ rest) path = remove_each rest (remove_first prefix path)

-- RemovePrefix, on the path of the request
unfoldable pub remove_prefix : GoString → GoString
remove_prefix path = remove_each prefix2remove path

module _ {C X W : Type 0} (outside : Outside C W) (key : GoString) where
  -- The handlers of a service are registered over its connection, and a failure is logged.
  abbrev pub register :
      GoString → List (GoString × C) → Result C × World C X W → List (GoString × C) × World C X W
  register name registered (ok conn, w) = (registered ++ (name, conn) ∷ [], w)
  register name registered (err e, w) = (registered, w)

  unfoldable pub register_services :
      List GoString
      → List (GoString × C)
      → World C X W
      → Outcome (List (GoString × C) × World C X W)
  register_services [] registered w = returns (registered, w)
  register_services (name ∷ names) registered w = dial_wrapper outside key name w >>= (λ r.
      register_services names (register name registered r).0 (register name registered r).1)

  -- The beginning of main
  unfoldable pub dial_services : World C X W → Outcome (List (GoString × C) × World C X W)
  dial_services w =
      register_services (lit "panda-account" ∷ lit "panda-auth" ∷ lit "panda-export" ∷ []) [] w
