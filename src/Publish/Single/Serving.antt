-- ===== src/Publish/Single/Serving.antt =====
-- The loop of Subscribe in publish/v1/main.go, between the turns of the loops of Publish that stand at
-- its channel.
use panda_go.Prelude.{ℕ, none, some, Option, List, [], ◌∷◌, ◌++◌}
use panda_go.Go.Text.{lit}
use panda_go.Go.Error.{MaybeError}
use panda_go.Go.Outcome.{Outcome, returns, ◌>>=◌}
use panda_go.Go.Chan.{Chan, Received, received, drained, waits, receive}
use panda_go.Publish.Single.{SingleServer, offering, put_chan, enter, leave, publish_turn}

-- A call of Subscribe: the server, its channel, what it has sent to its stream, and its result once it
-- has returned
pub record Session (M : Type 0) : Type 0 where
  pub server : SingleServer M
  pub channel : ℕ
  pub written : List M
  pub result : Option MaybeError

-- The case of the `select`: `reads` leads to the default case while there is nothing to read.
pub data Choice : Type 0 where
  reads : Choice
  cancels : Choice
  idles : Choice

module _ {M : Type 0} where
  -- The deferred function and the return
  abbrev pub end_session : MaybeError → Session M → Outcome (Session M)
  end_session e s =
      leave s.channel s.server >>= (λ t. returns (record s { server = t; result = some e }))

  abbrev pub take_received : Chan M → Session M → Session M
  take_received c s = record s {
    server = record s.server { channels = put_chan s.channel c s.server.channels };
  }

  abbrev pub send_received : MaybeError → M → Session M → Outcome (Session M)
  send_received none msg s = returns (record s { written = s.written ++ msg ∷ [] })
  send_received (some e) msg s = end_session (some e) s

  abbrev pub serve_received : (M → MaybeError) → Received M → Session M → Outcome (Session M)
  serve_received send (received msg c) s = send_received (send msg) msg (take_received c s)
  serve_received send drained s = end_session (some (lit "subscriber closed")) s
  serve_received send waits s = returns s

  abbrev pub serve_choice : (M → MaybeError) → Choice → Session M → Outcome (Session M)
  serve_choice send reads s = serve_received send (receive (s.server.channels s.channel)) s
  serve_choice send cancels s = end_session none s
  serve_choice send idles s = returns s

  -- One turn of the loop of Subscribe; `send` is what stream.Send answers to a message.
  unfoldable pub serve_session :
      (M → MaybeError) → Choice → Option MaybeError → Session M → Outcome (Session M)
  serve_session send choice (some e) s = returns s
  serve_session send choice none s = serve_choice send choice s

  -- The call when it has entered its channel
  abbrev pub start_session : SingleServer M → Session M
  start_session s =
      let (ch, t) = enter s in record { server = t; channel = ch; written = []; result = none }

-- What happens at the channel: a turn of Subscribe, or a turn of a Publish of a message
pub data Around (M : Type 0) : Type 0 where
  serves : Choice → Around M
  offers : M → Around M

module _ {M : Type 0} (send : M → MaybeError) where
  abbrev pub happen : Around M → Session M → Outcome (Session M)
  happen (serves choice) s = serve_session send choice s.result s
  happen (offers msg) s =
      publish_turn msg (offering s.channel [], s.server)
      >>= (λ r. returns (record s { server = r.1 }))

  unfoldable pub happen_all : List (Around M) → Session M → Outcome (Session M)
  happen_all [] s = returns s
  happen_all (a ∷ rest) s = happen a s >>= (λ t. happen_all rest t)
