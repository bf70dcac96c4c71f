-- ===== src/Kafka/Claim/Delivery.antt =====
-- What the reader of a topic gets: every turn keeps the messages of the claim in their order, and
-- enough turns hand out and mark all of them.
use panda_go.Prelude.{
  ℕ, ◌≤◌, ◌<◌, ◌≡◌, refl, Bool, true, false, List, [], ◌∷◌, ◌++◌, length, ltb, arith, append-nil,
  append_assoc, Bool-cases, inl, inr, length-append, sym, ◌∙◌, ap,
}
use panda_go.Go.Chan.{Chan, receive}
use panda_go.Kafka.Claim.{
  Place, sending, marking, Claim, start_claim, send_next, go_on, consume_claim, take_message, Turn,
  of_claim, of_reader, run_turn, run_turns,
}

module _ {M : Type 0} where
  abbrev pub unmarked : Place M → List M
  unmarked sending = []
  unmarked (marking m) = m ∷ []

  -- The messages of the claim are those that the reader has, then those in the channel, then those
  -- to come; those that the reader has or the channel holds are marked, but perhaps the last one.
  pub record InOrder (ms : List M) (c : Claim M) : Type 0 where
    pub all : c.taken ++ (c.messages.buffer ++ c.claimed) ≡ ms
    pub sent : c.marked ++ unmarked c.place ≡ c.taken ++ c.messages.buffer
    pub room : length c.messages.buffer ≤ c.messages.capacity
    pub ten : c.messages.capacity ≡ 10
    pub is_open : c.messages.closed ≡ false

  start_claim-InOrder : (ms : List M) → InOrder ms (start_claim ms)
  unfolding start_claim
  start_claim-InOrder ms = record {
    all = refl;
    sent = refl;
    room = ground arith;
    ten = refl;
    is_open = refl;
  }

  abbrev pub at : List M → Place M → Chan M → List M → List M → Claim M
  at claimed place ch marked taken = record {
    claimed = claimed;
    place = place;
    messages = ch;
    marked = marked;
    taken = taken;
  }

  send-InOrder :
      (all : List M) (m : M) (ms : List M) (ch : Chan M) (marked taken : List M)
      → InOrder all (at (m ∷ ms) sending ch marked taken)
      → length ch.buffer < ch.capacity
      → InOrder all (at ms (marking m) (record ch { buffer = ch.buffer ++ m ∷ [] }) marked taken)
  send-InOrder all m ms ch marked taken i free = record {
    all = ap (λ l. taken ++ l) (append_assoc ch.buffer (m ∷ []) ms) ∙ i.all;
    sent =
        ap (λ l. l ++ m ∷ []) (sym (append-nil marked) ∙ i.sent)
        ∙ append_assoc taken ch.buffer (m ∷ []);
    room = ground (arith, length-append ch.buffer (m ∷ []));
    ten = i.ten;
    is_open = i.is_open;
  }

  consume_claim-InOrder :
      (all claimed : List M) (p : Place M) (ch : Chan M) (marked taken : List M)
      → InOrder all (at claimed p ch marked taken)
      → InOrder all (consume_claim (at claimed p ch marked taken))
  unfolding consume_claim go_on send_next
  consume_claim-InOrder all [] sending ch marked taken i = i
  consume_claim-InOrder all (m ∷ ms) sending ch marked taken i =
      elim (Bool-cases (ltb (length ch.buffer) ch.capacity)) [
        | inl free ↦ rw free (send-InOrder all m ms ch marked taken i (ground arith))
        | inr full ↦ rw full i
      ]
  consume_claim-InOrder all claimed (marking m) ch marked taken i = record {
    all = i.all;
    sent = append-nil (marked ++ m ∷ []) ∙ i.sent;
    room = i.room;
    ten = i.ten;
    is_open = i.is_open;
  }

  take_message-InOrder :
      (all claimed : List M) (p : Place M) (b : List M) (n : ℕ) (k : Bool) (marked taken : List M)
      → InOrder all (at claimed p (record { buffer = b; capacity = n; closed = k }) marked taken)
      → InOrder all (
          take_message
            (at claimed p (record { buffer = b; capacity = n; closed = k }) marked taken))
  unfolding take_message receive
  take_message-InOrder all claimed p [] n true marked taken i = i
  take_message-InOrder all claimed p [] n false marked taken i = i
  take_message-InOrder all claimed p (m ∷ b) n k marked taken i = record {
    all = append_assoc taken (m ∷ []) (b ++ claimed) ∙ i.all;
    sent = i.sent ∙ sym (append_assoc taken (m ∷ []) b);
    room = ground (arith, i.room);
    ten = i.ten;
    is_open = i.is_open;
  }

  run_turn-InOrder :
      (all : List M) (t : Turn) (c : Claim M) → InOrder all c → InOrder all (run_turn t c)
  unfolding run_turn
  run_turn-InOrder all of_claim c i =
      consume_claim-InOrder all c.claimed c.place c.messages c.marked c.taken i
  run_turn-InOrder all of_reader c i =
      take_message-InOrder all c.claimed c.place c.messages.buffer c.messages.capacity
        c.messages.closed c.marked c.taken i

  run_turns-InOrder :
      (all : List M) (ts : List Turn) (c : Claim M) → InOrder all c → InOrder all (run_turns ts c)
  unfolding run_turns
  run_turns-InOrder all [] c i = i
  run_turns-InOrder all (t ∷ ts) c i =
      run_turns-InOrder all ts (run_turn t c) (run_turn-InOrder all t c i)

  -- In every order of turns, what the reader has, what waits in the channel and what is still to be
  -- sent are, in this order, the messages of the claim; the marked messages are those sent, but for
  -- the last one while the loop stands before its MarkMessage; the channel holds no more than its
  -- capacity of ten and is never closed.
  pub claim-InOrder : (ms : List M) (ts : List Turn) → InOrder ms (run_turns ts (start_claim ms))
  claim-InOrder ms ts = run_turns-InOrder ms ts (start_claim ms) (start_claim-InOrder ms)
