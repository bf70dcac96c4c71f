-- ===== src/Kafka/Claim/Refine.antt =====
-- A topic as its reader sees it, without the channel and the marks: what has been delivered, and what
-- is due. The turns of ConsumeClaim and its reader implement its one operation.
use panda_go.Prelude.{
  ℕ, suc, zero, ◌+◌, ◌≤◌, ◌≡◌, refl, Bool, true, false, List, [], ◌∷◌, ◌++◌, length, ltb, arith,
  append_assoc, ap, Bool-cases, inl, inr, ◌∙◌,
}
use panda_go.Go.Chan.{Chan, receive}
use panda_go.Kafka.Claim.{
  Place, sending, marking, Claim, start_claim, send_next, go_on, consume_claim, take_message, Turn,
  of_claim, of_reader, run_turn, run_turns,
}
use panda_go.Kafka.Claim.Delivery.{at}

pub record Topic (M : Type 0) : Type 0 where
  pub delivered : List M
  pub due : List M

abbrev pub reader_turns : List Turn → ℕ
reader_turns [] = 0
reader_turns (of_claim ∷ ts) = reader_turns ts
reader_turns (of_reader ∷ ts) = suc (reader_turns ts)

module _ {M : Type 0} where
  -- The oldest n messages that are due are delivered.
  abbrev deliver_from : ℕ → List M → List M → Topic M
  deliver_from zero d r = record { delivered = d; due = r }
  deliver_from (suc n) d [] = record { delivered = d; due = [] }
  deliver_from (suc n) d (m ∷ r) = deliver_from n (d ++ m ∷ []) r

  abbrev pub deliver : ℕ → Topic M → Topic M
  deliver n t = deliver_from n t.delivered t.due

  abbrev pub topic_of : Claim M → Topic M
  topic_of c = record { delivered = c.taken; due = c.messages.buffer ++ c.claimed }

  consume_claim-silent :
      (claimed : List M) (p : Place M) (ch : Chan M) (marked taken : List M)
      → topic_of (consume_claim (at claimed p ch marked taken))
        ≡ topic_of (at claimed p ch marked taken)
  unfolding consume_claim go_on send_next
  consume_claim-silent [] sending ch marked taken = refl
  consume_claim-silent (m ∷ ms) sending ch marked taken =
      elim (Bool-cases (ltb (length ch.buffer) ch.capacity)) [
        | inl free ↦
            rw free
              (ap (λ l. record { delivered = taken; due = l }) (append_assoc ch.buffer (m ∷ []) ms))
        | inr full ↦ rw full refl
      ]
  consume_claim-silent claimed (marking m) ch marked taken = refl

  take_message-delivers :
      (claimed : List M) (p : Place M) (b : List M) (n : ℕ) (k : Bool) (marked taken : List M)
      → (i : ℕ) × (i ≤ 1)
        × (topic_of (
              take_message
                (at claimed p (record { buffer = b; capacity = n; closed = k }) marked taken))
            ≡ deliver_from i taken (b ++ claimed))
  unfolding take_message receive
  take_message-delivers claimed p [] n true marked taken = (0, ground arith, refl)
  take_message-delivers claimed p [] n false marked taken = (0, ground arith, refl)
  take_message-delivers claimed p (m ∷ b) n k marked taken = (1, ground arith, refl)

  deliver_from_add : (i j : ℕ) (t : Topic M) → deliver j (deliver i t) ≡ deliver (i + j) t
  deliver_from_add i j t = go i t.delivered t.due
    where
      stop : (j : ℕ) (d : List M) → deliver_from j d [] ≡ record { delivered = d; due = [] }
      stop zero d = refl
      stop (suc j) d = refl

      more : (i : ℕ) (d r : List M) → deliver_from (suc (i + j)) d r ≡ deliver_from (suc i + j) d r
      more i d r = ap (λ k. deliver_from k d r) {x = suc (i + j)} (omega arith)

      go : (i : ℕ) (d r : List M) → deliver j (deliver_from i d r) ≡ deliver_from (i + j) d r
      go zero d r = ap (λ k. deliver_from k d r) (omega arith)
      go (suc i) d [] = stop j d ∙ more i d []
      go (suc i) d (m ∷ r) = go i (d ++ m ∷ []) r ∙ more i d (m ∷ r)

  run_turns-delivers :
      (ts : List Turn) (c : Claim M)
      → (n : ℕ) × (n ≤ reader_turns ts) × (topic_of (run_turns ts c) ≡ deliver n (topic_of c))
  unfolding run_turns run_turn
  run_turns-delivers [] c = (0, ground arith, refl)
  run_turns-delivers (of_claim ∷ ts) c =
      let (n, few, e) = run_turns-delivers ts (consume_claim c) in
      (
        n,
        few,
        e ∙ ap (deliver n) (consume_claim-silent c.claimed c.place c.messages c.marked c.taken),
      )
  run_turns-delivers (of_reader ∷ ts) c =
      let (i, one, d) =
        take_message-delivers c.claimed c.place c.messages.buffer c.messages.capacity
          c.messages.closed c.marked c.taken in
      let (n, few, e) = run_turns-delivers ts (take_message c) in
      (i + n, ground arith, e ∙ (ap (deliver n) d ∙ deliver_from_add i n (topic_of c)))

  -- Any turns of ConsumeClaim and of the reader do to the topic as the reader sees it what
  -- delivering some number of its oldest messages does, at most one for each turn of the reader;
  -- the channel and the marks do not show.
  pub run_turns-Refines :
      (ms : List M) (ts : List Turn)
      → (n : ℕ) × (n ≤ reader_turns ts)
        × (topic_of (run_turns ts (start_claim ms))
            ≡ deliver n (record { delivered = []; due = ms }))
  unfolding start_claim
  run_turns-Refines ms ts = run_turns-delivers ts (start_claim ms)
