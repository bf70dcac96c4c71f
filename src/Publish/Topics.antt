-- ===== src/Publish/Topics.antt =====
-- The server of publish/v2/main.go: a set of channels for every topic, and one channel of capacity 1
-- for every subscription. Channels are numbered in the order of their creation; `next` is the first
-- number that is free. The mutex makes every operation below one step.
pub mod Delivery
pub mod Steps
pub mod Ending
use panda_go.Prelude.{
  ℕ, suc, Bool, true, false, Option, none, some, List, [], ◌∷◌, if◌then◌else◌, nat_beq, nat_eq,
  list_eq,
}
use panda_go.Go.Text.{GoString, lit}
use panda_go.Go.Map.{GoMap, load, store, delete}
use panda_go.Go.Error.{Error, MaybeError}
use panda_go.Go.Outcome.{Outcome, returns, panics, ◌>>=◌}
use panda_go.Go.Chan.{
  Chan, make_chan, try_send, close_chan, receive, Received, received, drained, waits,
}

pub record Message : Type 0 where
  pub topic : GoString
  pub content : GoString

abbrev pub Channels : Type 0
Channels = ℕ → Chan Message

-- The channels of a topic: a set of channel numbers.
abbrev pub ChanSet : Type 0
ChanSet = GoMap ℕ Unit

pub record PubSubServer : Type 0 where
  pub subscribers : GoMap GoString ChanSet
  pub channels : Channels
  pub next : ℕ

-- NewPubSubServer
abbrev pub new_pub_sub_server : PubSubServer
new_pub_sub_server = record { subscribers = []; channels = λ i. make_chan 1; next = 0 }

unfoldable pub update : ℕ → Chan Message → Channels → Channels
update i ch f j = if nat_beq i j then ch else f j

abbrev pub or_empty : Option ChanSet → ChanSet
or_empty none = []
or_empty (some chs) = chs

-- addSubscriber
unfoldable pub add_subscriber : GoString → ℕ → PubSubServer → PubSubServer
add_subscriber topic ch s = record s {
  subscribers = store topic (store ch tt (or_empty (load topic s.subscribers))) s.subscribers;
}

-- The start of Subscribe: a new channel, and addSubscriber
unfoldable pub open_subscription : GoString → PubSubServer → ℕ × PubSubServer
open_subscription topic s = (
  s.next,
  add_subscriber topic s.next
      (record s { channels = update s.next (make_chan 1) s.channels; next = suc s.next }),
)

-- removeSubscriber: the set of the topic loses the channel, and the channel is closed
unfoldable pub remove_subscriber : GoString → ℕ → PubSubServer → Outcome PubSubServer
remove_subscriber topic ch s = elim (load topic s.subscribers) [
  | none ↦ returns s
  | some chs ↦ close_chan (s.channels ch) >>= (λ c. returns (record s {
    subscribers = store topic (delete ch chs) s.subscribers;
    channels = update ch c s.channels;
  }))
]

-- The deferred function of Subscribe: removeSubscriber, then close(ch)
unfoldable pub end_subscription : GoString → ℕ → PubSubServer → Outcome PubSubServer
end_subscription topic ch s = remove_subscriber topic ch s >>= (λ t.
    close_chan (t.channels ch) >>= (λ c. returns (record t { channels = update ch c t.channels })))

-- The loop of Publish over the set of the topic
unfoldable pub send_all : Message → ChanSet → Channels → Outcome Channels
send_all msg [] f = returns f
send_all msg ((ch, u) ∷ chs) f = try_send msg (f ch) >>= (λ c. send_all msg chs (update ch c f))

-- Publish
unfoldable pub publish : Message → PubSubServer → Outcome PubSubServer
publish msg s = elim (load msg.topic s.subscribers) [
  | none ↦ returns s
  | some chs ↦ send_all msg chs s.channels >>= (λ f. returns (record s { channels = f }))
]

-- What one turn of the `select` of Subscribe does: it ends the subscription with an error or nil,
-- hands a message to the stream and goes on, or waits.
pub data Turn : Type 0 where
  ends : MaybeError → PubSubServer → Turn
  goes_on : Message → PubSubServer → Turn
  blocks : Turn

abbrev pub sent : MaybeError → Message → PubSubServer → Turn
sent none msg s = goes_on msg s
sent (some e) msg s = ends (some e) s

abbrev pub subscriber_closed : Error
subscriber_closed = lit "subscriber closed"

-- The case `msg, ok := <-ch`, where `send` is what stream.Send answers to a message
unfoldable pub serve_message : (Message → MaybeError) → ℕ → PubSubServer → Turn
serve_message send ch s = elim (receive (s.channels ch)) [
  | received msg c ↦ sent (send msg) msg (record s { channels = update ch c s.channels })
  | drained ↦ ends (some subscriber_closed) s
  | waits ↦ blocks
]

-- One turn; `cancelled` says that the `select` took the case of the cancelled context
unfoldable pub serve_turn : Bool → (Message → MaybeError) → ℕ → PubSubServer → Turn
serve_turn cancelled send ch s = if cancelled then ends none s else serve_message send ch s
