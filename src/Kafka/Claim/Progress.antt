-- ===== src/Kafka/Claim/Progress.antt =====
-- Enough turns hand out and mark every message of the claim, whatever turns have gone before.
use panda_go.Prelude.{
  ℕ, suc, zero, ◌≡◌, refl, Bool, false, List, [], ◌∷◌, ◌++◌, length, append_assoc, append-nil, ap,
  ◌∙◌, replicate, subst,
}
use panda_go.Go.Chan.{Chan, receive}
use panda_go.Kafka.Claim.{
  Place, sending, marking, Claim, start_claim, send_next, go_on, consume_claim, take_message, Turn,
  of_claim, of_reader, run_turn, run_turns,
}
use panda_go.Kafka.Claim.Delivery.{at, unmarked, InOrder, claim-InOrder}

-- Send, mark, take.
abbrev rounds : ℕ → List Turn
rounds zero = []
rounds (suc n) = of_claim ∷ of_claim ∷ of_reader ∷ rounds n

module _ {M : Type 0} where
  run_turns-append :
      (ts us : List Turn) (c : Claim M) → run_turns (ts ++ us) c ≡ run_turns us (run_turns ts c)
  unfolding run_turns
  run_turns-append [] us c = refl
  run_turns-append (t ∷ ts) us c = run_turns-append ts us (run_turn t c)

  abbrev open_chan : List M → Chan M
  open_chan b = record { buffer = b; capacity = 10; closed = false }

  -- What is left to do from a place before a send, with the channel empty.
  abbrev done : List M → List M → Claim M
  done marked taken = at [] sending (open_chan []) marked taken

  run_rounds :
      (ms marked taken : List M)
      → run_turns (rounds (length ms)) (at ms sending (open_chan []) marked taken)
        ≡ done (marked ++ ms) (taken ++ ms)
  unfolding run_turns run_turn consume_claim go_on send_next take_message receive
  run_rounds [] marked taken = rw (append-nil marked, append-nil taken) refl
  run_rounds (m ∷ ms) marked taken =
      run_rounds ms (marked ++ m ∷ []) (taken ++ m ∷ [])
      ∙ rw (append_assoc marked (m ∷ []) ms, append_assoc taken (m ∷ []) ms) refl

  run_drain :
      (claimed b marked taken : List M)
      → run_turns (replicate (length b) of_reader) (at claimed sending (open_chan b) marked taken)
        ≡ at claimed sending (open_chan []) marked (taken ++ b)
  unfolding run_turns run_turn take_message receive
  run_drain claimed [] marked taken = rw (append-nil taken) refl
  run_drain claimed (m ∷ b) marked taken =
      run_drain claimed b marked (taken ++ m ∷ []) ∙ rw (append_assoc taken (m ∷ []) b) refl

  abbrev from_sending : List M → List M → List Turn
  from_sending b claimed = replicate (length b) of_reader ++ rounds (length claimed)

  run_sending :
      (claimed b marked taken : List M)
      → run_turns (from_sending b claimed) (at claimed sending (open_chan b) marked taken)
        ≡ done (marked ++ claimed) ((taken ++ b) ++ claimed)
  run_sending claimed b marked taken =
      run_turns-append (replicate (length b) of_reader) (rounds (length claimed)) _
      ∙ (ap (run_turns (rounds (length claimed))) (run_drain claimed b marked taken)
          ∙ run_rounds claimed marked (taken ++ b))

  run_all :
      (p : Place M) (claimed b marked taken : List M)
      → (us : List Turn) × (run_turns us (at claimed p (open_chan b) marked taken)
          ≡ done ((marked ++ unmarked p) ++ claimed) ((taken ++ b) ++ claimed))
  unfolding run_turns run_turn consume_claim go_on
  run_all sending claimed b marked taken =
      (from_sending b claimed, rw (append-nil marked) (run_sending claimed b marked taken))
  run_all (marking m) claimed b marked taken =
      (of_claim ∷ from_sending b claimed, run_sending claimed b (marked ++ m ∷ []) taken)

  abbrev Finishes : List M → Claim M → Type 0
  Finishes ms c = (us : List Turn) × ((run_turns us c).taken ≡ ms) × ((run_turns us c).marked ≡ ms)

  open_chan-eq :
      (b : List M) (n : ℕ) (k : Bool)
      → n ≡ 10
      → k ≡ false
      → open_chan b ≡ record { buffer = b; capacity = n; closed = k }
  open_chan-eq b n k e f = rw (e, f) refl

  InOrder-Finishes : (ms : List M) (c : Claim M) → InOrder ms c → Finishes ms c
  InOrder-Finishes ms c i =
      let (us, r) = run_all c.place c.claimed c.messages.buffer c.marked c.taken in
      let taken : (c.taken ++ c.messages.buffer) ++ c.claimed ≡ ms =
        append_assoc c.taken c.messages.buffer c.claimed ∙ i.all in
      let opened =
        open_chan-eq c.messages.buffer c.messages.capacity c.messages.closed i.ten i.is_open in
      subst (λ ch. Finishes ms (at c.claimed c.place ch c.marked c.taken)) opened
        (
          us,
          ap (λ d. d.taken) r ∙ taken,
          ap (λ d. d.marked) r ∙ (ap (λ l. l ++ c.claimed) i.sent ∙ taken),
        )

  -- Whatever turns ConsumeClaim and the reader have taken, there are further turns after which the
  -- reader has all messages of the claim, in their order, and all of them are marked.
  pub claim-Finishes :
      (ms : List M) (ts : List Turn)
      → (us : List Turn) × ((run_turns us (run_turns ts (start_claim ms))).taken ≡ ms)
        × ((run_turns us (run_turns ts (start_claim ms))).marked ≡ ms)
  claim-Finishes ms ts = InOrder-Finishes ms (run_turns ts (start_claim ms)) (claim-InOrder ms ts)
