-- ===== src/Kafka/Claim.antt =====
-- ConsumeClaim of component/kafka/consumer/consumer.go, and the reader of the channel that
-- GetTopicMessageChan returns. `M` are sarama's messages. The goroutine and the reader take turns
-- in any order; a turn in which one cannot go on leaves the state as it is.
pub mod Delivery
pub mod Refine
pub mod Progress
use panda_go.Prelude.{
  ℕ, suc, zero, ◌+◌, Bool, true, false, Option, none, some, List, [], ◌∷◌, ◌++◌, length, ltb,
  if◌then◌else◌,
}
use panda_go.Go.Chan.{Chan, make_chan, Received, received, drained, waits, receive}

-- Where the loop of ConsumeClaim stands: before the send of the next message of the claim, or
-- before MarkMessage for the message that it has sent.
pub data Place (M : Type 0) : Type 0 where
  sending : Place M
  marking : M → Place M

pub record Claim (M : Type 0) : Type 0 where
  pub claimed : List M
  pub place : Place M
  pub messages : Chan M
  pub marked : List M
  pub taken : List M

module _ {M : Type 0} where
  -- The claim's messages, and the channel as GetTopicMessageChan makes it
  unfoldable pub start_claim : List M → Claim M
  start_claim ms = record {
    claimed = ms;
    place = sending;
    messages = make_chan 10;
    marked = [];
    taken = [];
  }

  -- h.messages <- msg: the send waits while the channel is full
  unfoldable pub send_next : List M → Claim M → Claim M
  send_next [] c = c
  send_next (m ∷ ms) c =
      if ltb (length c.messages.buffer) c.messages.capacity
      then record c {
        claimed = ms;
        place = marking m;
        messages = record c.messages { buffer = c.messages.buffer ++ m ∷ [] };
      }
      else c

  -- session.MarkMessage(msg, "")
  unfoldable pub go_on : Place M → Claim M → Claim M
  go_on sending c = send_next c.claimed c
  go_on (marking m) c = record c { place = sending; marked = c.marked ++ m ∷ [] }

  -- One turn of the goroutine
  unfoldable pub consume_claim : Claim M → Claim M
  consume_claim c = go_on c.place c

  abbrev pub hand_out : Received M → Claim M → Claim M
  hand_out (received m ch) c = record c { messages = ch; taken = c.taken ++ m ∷ [] }
  hand_out drained c = c
  hand_out waits c = c

  -- One turn of the reader
  unfoldable pub take_message : Claim M → Claim M
  take_message c = hand_out (receive c.messages) c

pub data Turn : Type 0 where
  of_claim : Turn
  of_reader : Turn

module _ {M : Type 0} where
  unfoldable pub run_turn : Turn → Claim M → Claim M
  run_turn of_claim c = consume_claim c
  run_turn of_reader c = take_message c

  unfoldable pub run_turns : List Turn → Claim M → Claim M
  run_turns [] c = c
  run_turns (t ∷ ts) c = run_turns ts (run_turn t c)
