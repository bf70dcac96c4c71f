-- ===== src/Go/Chan.antt =====
-- Buffered channels: what is in the buffer, the capacity, and whether the channel is closed. A send in
-- a `select` with a `default` is `try_send`.
use panda_go.Prelude.{
  ℕ, ◌≤◌, Bool, true, false, ◌≡◌, List, [], ◌∷◌, ◌++◌, arith, length, length-append, ltb,
  if◌then◌else◌,
}
use panda_go.Go.Outcome.{Outcome, returns, panics}

pub record Chan {ℓ} (A : Type ℓ) : Type ℓ where
  pub buffer : List A
  pub capacity : ℕ
  pub closed : Bool

-- make(chan A, n)
abbrev pub make_chan {ℓ} : {A : Type ℓ} → ℕ → Chan A
make_chan n = record { buffer = []; capacity = n; closed = false }

-- case ch <- a: default: a send on a closed channel panics, and a full channel drops the value
unfoldable pub try_send {ℓ} : {A : Type ℓ} → A → Chan A → Outcome (Chan A)
try_send a ch =
    if ch.closed
    then panics
    else if ltb (length ch.buffer) ch.capacity
    then returns (record ch { buffer = ch.buffer ++ a ∷ [] })
    else returns ch

-- close(ch): closing twice panics
unfoldable pub close_chan {ℓ} : {A : Type ℓ} → Chan A → Outcome (Chan A)
close_chan ch = if ch.closed then panics else returns (record ch { closed = true })

pub data Received {ℓ} (A : Type ℓ) : Type ℓ where
  received : A → Chan A → Received A
  drained : Received A
  waits : Received A

-- msg, ok := <-ch: the oldest value; without one, `drained` on a closed channel, else a wait
unfoldable pub receive {ℓ} : {A : Type ℓ} → Chan A → Received A
receive ch = elim ch.buffer [
  | [] ↦ if ch.closed then drained else waits
  | a ∷ rest ↦ received a (record ch { buffer = rest })
]

abbrev pub WithinCapacity {ℓ} : {A : Type ℓ} → Chan A → Type 0
WithinCapacity ch = length ch.buffer ≤ ch.capacity

pub try_send-WithinCapacity {ℓ} :
    {A : Type ℓ} (a : A) (ch d : Chan A)
    → WithinCapacity ch
    → try_send a ch ≡ returns d
    → WithinCapacity d
unfolding try_send
try_send-WithinCapacity a ch d h k = ground (arith, length-append ch.buffer (a ∷ []))
