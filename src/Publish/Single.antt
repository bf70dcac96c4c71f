-- ===== src/Publish/Single.antt =====
-- The server of publish/v1/main.go: one set of channels, of capacity 1, for all subscriptions. `M` are
-- the messages. Channels are numbered in the order of their creation. The code takes no lock, so the
-- loop of Publish goes on in turns, between which everything else may happen.
pub mod Serving
pub mod Served
use panda_go.Prelude.{ℕ, suc, ◌≡◌, List, [], ◌∷◌, if◌then◌else◌, nat_beq, arith, subst, ap}
use panda_go.Go.Outcome.{Outcome, returns, ◌>>=◌, >>=-eq-returns, returns_inj}
use panda_go.Go.Chan.{Chan, make_chan, try_send, close_chan}

pub record SingleServer (M : Type 0) : Type 0 where
  pub subscribers : List ℕ
  pub channels : ℕ → Chan M
  pub next : ℕ

unfoldable pub put_chan : {M : Type 0} → ℕ → Chan M → (ℕ → Chan M) → ℕ → Chan M
put_chan i ch f j = if nat_beq i j then ch else f j

unfoldable pub remove_chan : ℕ → List ℕ → List ℕ
remove_chan ch [] = []
remove_chan ch (c ∷ cs) = let rest = remove_chan ch cs in if nat_beq ch c then rest else c ∷ rest

-- Where a call of Publish stands: it has returned, or it offers its message to a channel, with the
-- channels that are left to visit.
pub data Publishing : Type 0 where
  published : Publishing
  offering : ℕ → List ℕ → Publishing

abbrev pub start_publishing : List ℕ → Publishing
start_publishing [] = published
start_publishing (ch ∷ chs) = offering ch chs

-- What happens around a call of Publish: a turn of its loop, or anything else that changes the server
pub data Act (M : Type 0) : Type 0 where
  publishes : Act M
  other : (SingleServer M → Outcome (SingleServer M)) → Act M

module _ {M : Type 0} where
  -- NewPubSubServer
  abbrev pub new_single_server : SingleServer M
  new_single_server = record { subscribers = []; channels = λ i. make_chan 1; next = 0 }

  -- The start of Subscribe
  unfoldable pub enter : SingleServer M → ℕ × SingleServer M
  enter s = (
    s.next,
    record s {
      subscribers = s.next ∷ s.subscribers;
      channels = put_chan s.next (make_chan 1) s.channels;
      next = suc s.next;
    },
  )

  -- The deferred function of Subscribe
  unfoldable pub leave : ℕ → SingleServer M → Outcome (SingleServer M)
  leave ch s = close_chan (s.channels ch) >>= (λ c. returns (record s {
    subscribers = remove_chan ch s.subscribers;
    channels = put_chan ch c s.channels;
  }))

  -- One turn of the loop of Publish: its inner `for` comes back to the same channel.
  unfoldable pub publish_turn :
      M → Publishing × SingleServer M → Outcome (Publishing × SingleServer M)
  publish_turn msg (published, s) = returns (published, s)
  publish_turn msg (offering ch chs, s) =
      try_send msg (s.channels ch)
      >>= (λ c. returns (offering ch chs, record s { channels = put_chan ch c s.channels }))

  abbrev pub act : M → Act M → Publishing × SingleServer M → Outcome (Publishing × SingleServer M)
  act msg publishes r = publish_turn msg r
  act msg (other f) (p, s) = f s >>= (λ t. returns (p, t))

  unfoldable pub run_acts :
      M → List (Act M) → Publishing × SingleServer M → Outcome (Publishing × SingleServer M)
  run_acts msg [] r = returns r
  run_acts msg (a ∷ acts) r = act msg a r >>= (λ q. run_acts msg acts q)

  -- A call of Publish that offers its message has not moved on.
  abbrev pub Stays : ℕ → List ℕ → Publishing × SingleServer M → Type 0
  Stays ch chs (p, s) = p ≡ offering ch chs

  publish_turn-Stays :
      (msg : M) (ch : ℕ) (chs : List ℕ) (p : Publishing) (s : SingleServer M)
      (q : Publishing × SingleServer M)
      → p ≡ offering ch chs
      → publish_turn msg (p, s) ≡ returns q
      → Stays ch chs q
  unfolding publish_turn
  publish_turn-Stays msg ch chs published s q e h = ground arith
  publish_turn-Stays msg ch chs (offering d ds) s q e h =
      let (c, _, f) = >>=-eq-returns (try_send msg (s.channels d)) _ h in
      subst (Stays ch chs) (returns_inj f) e

  act-Stays :
      (msg : M) (a : Act M) (ch : ℕ) (chs : List ℕ) (r q : Publishing × SingleServer M)
      → Stays ch chs r
      → act msg a r ≡ returns q
      → Stays ch chs q
  act-Stays msg publishes ch chs (p, s) q e h = publish_turn-Stays msg ch chs p s q e h
  act-Stays msg (other f) ch chs (p, s) q e h =
      let (t, _, g) = >>=-eq-returns (f s) _ h in subst (Stays ch chs) (returns_inj g) e

  run_acts-Stays :
      (msg : M) (acts : List (Act M)) (ch : ℕ) (chs : List ℕ) (r q : Publishing × SingleServer M)
      → Stays ch chs r
      → run_acts msg acts r ≡ returns q
      → Stays ch chs q
  unfolding run_acts
  run_acts-Stays msg [] ch chs r q e h = subst (Stays ch chs) (returns_inj h) e
  run_acts-Stays msg (a ∷ acts) ch chs r q e h =
      let (m, k, rest) = >>=-eq-returns (act msg a r) _ h in
      run_acts-Stays msg acts ch chs m q (act-Stays msg a ch chs r m e k) rest

  -- A call of Publish on a server with a subscription never returns and never comes to a second
  -- channel: after any number of its turns, and whatever else happens to the server between them, it
  -- offers its message to the first channel, unless it has panicked.
  pub run_acts-start_publishing :
      (msg : M) (acts : List (Act M)) (ch : ℕ) (chs : List ℕ) (s : SingleServer M)
      (q : Publishing × SingleServer M)
      → s.subscribers ≡ ch ∷ chs
      → run_acts msg acts (start_publishing s.subscribers, s) ≡ returns q
      → Stays ch chs q
  run_acts-start_publishing msg acts ch chs s q e h =
      run_acts-Stays msg acts ch chs (start_publishing s.subscribers, s) q (ap start_publishing e) h
