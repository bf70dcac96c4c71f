-- ===== src/Publish/Topics/Delivery.antt =====
-- What Publish delivers, and to whom.
use panda_go.Prelude.{
  ℕ, ◌<◌, Bool, true, false, ◌≡◌, refl, ◌∙◌, none, [], ◌∷◌, ◌++◌, arith, if◌then◌else◌, ltb, length,
  nat_beq, nat_beq_iff, nat_eq, list_eq, Option-cases, Bool-cases, subst, inl, inr,
}
use panda_go.Go.Text.{GoString}
use panda_go.Go.Map.{load, has_key}
use panda_go.Go.Outcome.{returns}
use panda_go.Go.Chan.{Chan, try_send, WithinCapacity}
use panda_go.Utils.SyncMap.{Unique}
use panda_go.Publish.Topics.{
  Message, Channels, ChanSet, PubSubServer, update, or_empty, send_all, publish,
}

-- A channel after an offer: the message is last in the buffer when there is room, else it is lost.
abbrev pub offered : Message → Chan Message → Chan Message
offered msg ch =
    if ltb (length ch.buffer) ch.capacity then record ch { buffer = ch.buffer ++ msg ∷ [] } else ch

-- Whether the channel is in the set of the topic.
abbrev pub subscribes : GoString → ℕ → PubSubServer → Bool
subscribes topic ch s = has_key ch (or_empty (load topic s.subscribers))

-- The channels of every topic's set are open and have been created, no set has one twice, and no
-- buffer holds more than its capacity.
pub record IsSound (s : PubSubServer) : Type 0 where
  pub known :
      (topic : GoString) (ch : ℕ)
      → subscribes topic ch s ≡ true
      → (ch < s.next) × ((s.channels ch).closed ≡ false)
  pub unique : (topic : GoString) → Unique (or_empty (load topic s.subscribers))
  pub room : (ch : ℕ) → WithinCapacity (s.channels ch)

try_send_open :
    (msg : Message) (ch : Chan Message)
    → ch.closed ≡ false
    → try_send msg ch ≡ returns (offered msg ch)
unfolding try_send
try_send_open msg ch h = ground (arith, h)

update_open :
    (msg : Message) (j i : ℕ) (f : Channels)
    → (f i).closed ≡ false
    → (f j).closed ≡ false
    → (update j (offered msg (f j)) f i).closed ≡ false
unfolding update
update_open msg j i f hi hj = ground arith

-- The entry `j` of a set is offered the message first; then the rest of the set is.
offered_next :
    (msg : Message) (j ch : ℕ) (x : Unit) (chs : ChanSet) (f : Channels)
    → load j chs ≡ none
    → (if has_key ch chs
        then offered msg (update j (offered msg (f j)) f ch)
        else update j (offered msg (f j)) f ch)
      ≡ (if has_key ch ((j, x) ∷ chs) then offered msg (f ch) else f ch)
unfolding update has_key load
offered_next msg j ch x chs f u = elim (Bool-cases (nat_beq j ch)) [
  | inl p ↦
      let same : j ≡ ch = (nat_beq_iff j ch).0 p in
      subst
        (λ i.
          (if has_key i chs
            then offered msg (if nat_beq j i then offered msg (f j) else f i)
            else (if nat_beq j i then offered msg (f j) else f i))
          ≡ (if has_key i ((j, x) ∷ chs) then offered msg (f i) else f i))
        same (rw ((nat_beq_iff j j).1 refl, u, has_key) refl)
  | inr p ↦ rw (p, has_key, load) refl
]

pub send_all_lem :
    (msg : Message) (chs : ChanSet) (f : Channels)
    → Unique chs
    → ((ch : ℕ) → has_key ch chs ≡ true → (f ch).closed ≡ false)
    → (g : Channels) × (send_all msg chs f ≡ returns g)
      × ((ch : ℕ) → g ch ≡ (if has_key ch chs then offered msg (f ch) else f ch))
unfolding send_all has_key load
send_all_lem msg [] f u o = (f, refl, λ ch. refl)
send_all_lem msg ((j, x) ∷ chs) f u o =
    let f' : Channels = update j (offered msg (f j)) f in
    let at_j : (f j).closed ≡ false = o j (ground (arith, nat_beq_iff j j)) in
    let (g, sent, each) =
      send_all_lem msg chs f' u.1 (λ i h. update_open msg j i f (o i (ground (arith, h))) at_j) in
    (g, rw (try_send_open msg (f j) at_j) sent, λ ch. each ch ∙ offered_next msg j ch x chs f u.0)

-- Publish never panics on a sound server. Every channel in the set of the message's topic is offered
-- the message, which a full one loses, and every other channel is left as it was.
pub publish-offers :
    (msg : Message) (s : PubSubServer)
    → IsSound s
    → (t : PubSubServer) × (publish msg s ≡ returns t)
      × (t.subscribers ≡ s.subscribers)
      × (t.next ≡ s.next)
      × ((ch : ℕ)
          → t.channels ch
            ≡ (if subscribes msg.topic ch s then offered msg (s.channels ch) else s.channels ch))
unfolding publish has_key load
publish-offers msg s sound = elim (Option-cases (load msg.topic s.subscribers)) [
  | inl e ↦ (s, rw (e, publish) refl, refl, refl, λ ch. rw e refl)
  | inr (chs, e) ↦
      let (g, sent, each) =
        send_all_lem msg chs s.channels
          (subst (λ o. Unique (or_empty o)) e (sound.unique msg.topic))
          (λ ch h. (sound.known msg.topic ch (rw e h)).1) in
      (record s { channels = g }, rw (e, sent, publish) refl, refl, refl, λ ch. rw e (each ch))
]
