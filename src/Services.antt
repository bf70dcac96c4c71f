-- ===== src/Services.antt =====
-- panda-account/maIn.go and panda-auth/maIn.go: the handlers, each of which calls the other service.
-- Spans, log lines and the printing of the metadata are left out.
pub mod Answers
use panda_go.Prelude.{ℕ, Bool, true, false, none, some, Option, List, [], ◌∷◌, ◌++◌}
use panda_go.Go.Text.{GoString, lit}
use panda_go.Go.Error.{Error, MaybeError, Result, ok, err}
use panda_go.Go.Outcome.{Outcome, returns, panics, ◌>>=◌}
use panda_go.Grpc.World.{Outside, World}
use panda_go.Grpc.Clients.{
  ClientKind, panda_account_client, panda_auth_client, common_service_client, Client,
  create_client_wrapper,
}

-- What a handler of panda-account gives to gin to be written as JSON, with its status
pub data Page : Type 0 where
  failure : GoString → Page
  posted : GoString → Page
  reply : GoString → Page
  greeting : GoString → Page

abbrev pub Written : Type 0
Written = List (ℕ × Page)

-- handlerPostTest, on the body of the request as it is read; the form has not been parsed.
unfoldable pub handler_post_test : Result GoString → Written
handler_post_test (err e) = (400, failure e) ∷ []
handler_post_test (ok content) = (200, posted content) ∷ []

-- The type assertions to the generated interfaces
abbrev pub is_auth : ClientKind → Bool
is_auth panda_auth_client = true
is_auth panda_account_client = false
is_auth common_service_client = false

abbrev pub is_account : ClientKind → Bool
is_account panda_account_client = true
is_account panda_auth_client = false
is_account common_service_client = false

abbrev pub hello_world : Page
hello_world = greeting (lit "Hello, World!")

-- `ask` is a generated method, which calls through the interceptors: a request has a name, an answer a
-- reply.
module _ {C X W : Type 0} (outside : Outside C W) (key : GoString)
    (ask : C → GoString → World C X W → Result GoString × World C X W) where
  -- After an answer the handler goes on to its last line; after an error it returns.
  abbrev pub hello_answered : Result GoString × World C X W → Written × World C X W
  hello_answered (err e, w) = ([], w)
  hello_answered (ok r, w) = ((200, reply r) ∷ (200, hello_world) ∷ [], w)

  abbrev pub with_auth : Option (Client C) → World C X W → Written × World C X W
  with_auth none w = ((200, hello_world) ∷ [], w)
  with_auth (some client) w = hello_answered (ask client.conn (lit "11") w)

  -- handleTest of panda-account
  unfoldable pub handle_test : World C X W → Outcome (Written × World C X W)
  handle_test w =
      create_client_wrapper outside key (λ c. is_auth c.kind) (lit "PandaAuthClient") w
      >>= (λ r. returns (with_auth r.0 r.1))

  abbrev pub demo_answered : Result GoString × World C X W → (GoString × MaybeError) × World C X W
  demo_answered (err e, w) = ((e, none), w)
  demo_answered (ok r, w) = ((r, none), w)

  abbrev pub with_account : Option (Client C) → World C X W → (GoString × MaybeError) × World C X W
  with_account none w = ((lit "lgxsdjkl", none), w)
  with_account (some client) w = demo_answered (ask client.conn (lit "123231") w)

  -- SayHello of panda-auth
  unfoldable pub say_hello : World C X W → Outcome ((GoString × MaybeError) × World C X W)
  say_hello w =
      create_client_wrapper outside key (λ c. is_account c.kind) (lit "PandaAccountClient") w
      >>= (λ r. returns (with_account r.0 r.1))
