-- ===== src/Publish/Topics/Steps.antt =====
-- The runs of the server of publish/v2/main.go: Subscribe opens a subscription, Publish is called, a
-- subscription hands a message to its stream, or the deferred function of Subscribe takes its channel
-- out of the set of its topic, where it has been since the start, and closes it.
use panda_go.Prelude.{
  ℕ, List, true, false, ◌≡◌, ◌≢◌, refl, ◌∙◌, ap, sym, subst, none, some, [], ◌∷◌, arith, length,
  length-append, ◌⊎◌, if◌then◌else◌, inl, inr, nat_beq_iff, nat_eq, list_eq, Bool-cases,
  Option-cases, Eq, ◌==◌, ==_iff,
}
use panda_go.Go.Text.{GoString}
use panda_go.Go.Map.{GoMap, load, store, delete, has_key, load-store, load-delete}
use panda_go.Go.Error.{MaybeError}
use panda_go.Go.Outcome.{returns, panics, ◌>>=◌, >>=-eq-returns, returns_inj}
use panda_go.Go.Chan.{Chan, close_chan, receive, WithinCapacity}
use panda_go.Utils.SyncMap.{Unique}
use panda_go.Publish.Topics.{
  Message, ChanSet, remove_subscriber, PubSubServer, update, or_empty, add_subscriber,
  open_subscription, publish, serve_message, sent, goes_on, ends, blocks, subscriber_closed,
  new_pub_sub_server,
}
use panda_go.Publish.Topics.Delivery.{offered, subscribes, IsSound, publish-offers}

pub data Step (s : PubSubServer) : PubSubServer → Type 0 where
  subscribed : (topic : GoString) → Step s (open_subscription topic s).1
  published : (msg : Message) {t : PubSubServer} → publish msg s ≡ returns t → Step s t
  handed :
      (send : Message → MaybeError) (ch : ℕ) (msg : Message) {t : PubSubServer}
      → serve_message send ch s ≡ goes_on msg t
      → Step s t
  removed :
      (topic : GoString) (ch : ℕ) {t : PubSubServer}
      → subscribes topic ch s ≡ true
      → remove_subscriber topic ch s ≡ returns t
      → Step s t

pub data Reach (s : PubSubServer) : PubSubServer → Type 0 where
  here : Reach s s
  next : {middle last : PubSubServer} → Reach s middle → Step middle last → Reach s last

module _ {ℓ} {K V : Type ℓ} ⦃e : Eq K⦄ where
  delete-Unique : (k : K) (m : GoMap K V) → Unique m → Unique (delete k m)
  unfolding delete
  delete-Unique k [] u = u
  delete-Unique k ((j, v) ∷ m) u = elim (Bool-cases (j == k)) [
    | inl p ↦ rw (p, delete) (delete-Unique k m u.1)
    | inr p ↦ rw (p, delete) (ground (arith, load-delete k j m, u.0), delete-Unique k m u.1)
  ]

  store-Unique : (k : K) (v : V) (m : GoMap K V) → Unique m → Unique (store k v m)
  unfolding store
  store-Unique k v m u = (ground (arith, load-delete k k m, ==_iff k k), delete-Unique k m u)

  pub has_key-store :
      (k j : K) (v : V) (m : GoMap K V)
      → has_key j (store k v m) ≡ (if k == j then true else has_key j m)
  unfolding has_key
  has_key-store k j v m = ground (arith, load-store k j v m)

offered-WithinCapacity :
    (msg : Message) (ch : Chan Message) → WithinCapacity ch → WithinCapacity (offered msg ch)
offered-WithinCapacity msg ch h = ground (arith, length-append ch.buffer (msg ∷ []))

-- The sets after a new subscription.
opened_set :
    (topic t : GoString) (s : PubSubServer)
    → or_empty (load t (open_subscription topic s).1.subscribers) ≡ (
        if topic == t
        then store s.next tt (or_empty (load t s.subscribers))
        else or_empty (load t s.subscribers))
unfolding open_subscription add_subscriber
opened_set topic t s = ground (
  arith,
  load-store topic t (store s.next tt (or_empty (load topic s.subscribers))) s.subscribers,
  ==_iff topic t,
)

opened_subscribes :
    (topic t : GoString) (ch : ℕ) (s : PubSubServer)
    → subscribes t ch (open_subscription topic s).1 ≡ true
    → (s.next ≡ ch) ⊎ (subscribes t ch s ≡ true)
opened_subscribes topic t ch s h = ground (
  arith,
  opened_set topic t s,
  has_key-store s.next ch tt (or_empty (load t s.subscribers)),
  nat_beq_iff s.next ch,
  h,
)

open_subscription-IsSound :
    (topic : GoString) (s : PubSubServer) → IsSound s → IsSound (open_subscription topic s).1
unfolding open_subscription add_subscriber update
open_subscription-IsSound topic s sound = record {
  known = λ t ch h. elim (opened_subscribes topic t ch s h) [
    | inl same ↦ ground (arith, same)
    | inr old ↦ ground (arith, sound.known t ch old)
  ];
  unique = λ t. rw (opened_set topic t s) (elim (Bool-cases (topic == t)) [
    | inl p ↦ rw p (store-Unique s.next tt (or_empty (load t s.subscribers)) (sound.unique t))
    | inr p ↦ rw p (sound.unique t)
  ]);
  room = λ ch. ground (arith, sound.room ch);
}

same_subscribes :
    (s u : PubSubServer) (topic : GoString) (ch : ℕ)
    → u.subscribers ≡ s.subscribers
    → subscribes topic ch u ≡ subscribes topic ch s
same_subscribes s u topic ch h = ap (λ m. has_key ch (or_empty (load topic m))) h

publish-IsSound :
    (msg : Message) (s t : PubSubServer) → publish msg s ≡ returns t → IsSound s → IsSound t
publish-IsSound msg s t e sound =
    let (u, done, subs, count, each) = publish-offers msg s sound in
    let same : u ≡ t = cc in
    subst IsSound same (record {
      known = λ topic ch h.
          let old = sound.known topic ch (sym (same_subscribes s u topic ch subs) ∙ h) in
          (rw count old.0, ground (arith, each ch, old.1));
      unique = λ topic. rw subs (sound.unique topic);
      room = λ ch. ground (
        arith,
        each ch,
        offered-WithinCapacity msg (s.channels ch) (sound.room ch),
        sound.room ch,
      );
    })

sent_on :
    (e : MaybeError) (m msg : Message) (s t : PubSubServer)
    → sent e m s ≡ goes_on msg t
    → (m ≡ msg) × (s ≡ t)
sent_on none m msg s t h = (cc, cc)
sent_on (some e) m msg s t h = cc

nothing_sent :
    (send : Message → MaybeError) (ch : ℕ) (msg : Message) (s t : PubSubServer)
    → (s.channels ch).buffer ≡ []
    → serve_message send ch s ≢ goes_on msg t
unfolding serve_message receive
nothing_sent send ch msg s t p e = elim (Bool-cases (s.channels ch).closed) [
  | inl q ↦
      let k : ends (some subscriber_closed) s ≡ goes_on msg t = rw (p, q, serve_message) at e in cc
  | inr q ↦ let k : blocks ≡ goes_on msg t = rw (p, q, serve_message) at e in cc
]

-- What a turn that goes on has done: it took the oldest message of the buffer.
pub handed_oldest :
    (send : Message → MaybeError) (ch : ℕ) (msg : Message) (s t : PubSubServer)
    → serve_message send ch s ≡ goes_on msg t
    → (rest : List Message) × ((s.channels ch).buffer ≡ msg ∷ rest)
      × (record s { channels = update ch (record (s.channels ch) { buffer = rest }) s.channels }
          ≡ t)
unfolding serve_message receive
handed_oldest send ch msg s t e = go (s.channels ch).buffer refl
  where
    go :
        (b : List Message)
        → (s.channels ch).buffer ≡ b
        → (rest : List Message) × ((s.channels ch).buffer ≡ msg ∷ rest)
          × (record s { channels = update ch (record (s.channels ch) { buffer = rest }) s.channels }
              ≡ t)
    go [] p = absurd (nothing_sent send ch msg s t p e)
    go (m ∷ rest) p =
        let k : sent (send m) m (record s {
          channels = update ch (record (s.channels ch) { buffer = rest }) s.channels;
        })
            ≡ goes_on msg t =
          rw (p, serve_message) at e in
        let (same, left) = sent_on (send m) m _ _ _ k in (rest, p ∙ ap (λ x. x ∷ rest) same, left)

handed-IsSound :
    (send : Message → MaybeError) (ch : ℕ) (msg : Message) (s t : PubSubServer)
    → serve_message send ch s ≡ goes_on msg t
    → IsSound s
    → IsSound t
unfolding update
handed-IsSound send ch msg s t e sound =
    let (rest, oldest, same) = handed_oldest send ch msg s t e in
    subst IsSound same (record {
      known = λ topic i h. ground (arith, sound.known topic i h);
      unique = sound.unique;
      room = λ i. ground (arith, sound.room ch, sound.room i, ap length oldest);
    })

-- A channel belongs to one topic.
abbrev pub Single : PubSubServer → Type 0
Single s = (t u : GoString) (ch : ℕ) → subscribes t ch s ≡ true → subscribes u ch s ≡ true → t ≡ u

opened_topic :
    (topic t : GoString) (ch : ℕ) (s : PubSubServer)
    → subscribes t ch (open_subscription topic s).1 ≡ true
    → ((s.next ≡ ch) × (topic ≡ t)) ⊎ (subscribes t ch s ≡ true)
opened_topic topic t ch s h = ground (
  arith,
  opened_set topic t s,
  has_key-store s.next ch tt (or_empty (load t s.subscribers)),
  nat_beq_iff s.next ch,
  ==_iff topic t,
  h,
)

open_subscription-Single :
    (topic : GoString) (s : PubSubServer)
    → IsSound s
    → Single s
    → Single (open_subscription topic s).1
open_subscription-Single topic s sound single t u ch h k = elim (opened_topic topic t ch s h) [
  | inl a ↦ elim (opened_topic topic u ch s k) [
    | inl b ↦ sym a.1 ∙ b.1
    | inr b ↦ absurd (let c = sound.known u ch b in ground (arith, a.0, c.0))
  ]
  | inr a ↦ elim (opened_topic topic u ch s k) [
    | inl b ↦ absurd (let c = sound.known t ch a in ground (arith, b.0, c.0))
    | inr b ↦ single t u ch a b
  ]
]

same-Single : (s u : PubSubServer) → u.subscribers ≡ s.subscribers → Single s → Single u
same-Single s u e single t v ch h k =
    single t v ch (sym (same_subscribes s u t ch e) ∙ h) (sym (same_subscribes s u v ch e) ∙ k)

-- The server after the channel of a subscription has been taken out and closed
abbrev pub left : GoString → ℕ → ChanSet → Chan Message → PubSubServer → PubSubServer
left topic ch chs c s = record s {
  subscribers = store topic (delete ch chs) s.subscribers;
  channels = update ch c s.channels;
}

pub left_by :
    (topic : GoString) (ch : ℕ) (s t : PubSubServer)
    → subscribes topic ch s ≡ true
    → remove_subscriber topic ch s ≡ returns t
    → (chs : ChanSet) × (c : Chan Message) × (load topic s.subscribers ≡ some chs)
      × (close_chan (s.channels ch) ≡ returns c)
      × (left topic ch chs c s ≡ t)
unfolding remove_subscriber has_key
left_by topic ch s t h e = elim (Option-cases (load topic s.subscribers)) [
  | inl p ↦ absurd (let k : false ≡ true = rw (p, has_key) at h in cc)
  | inr (chs, p) ↦
      let k : (close_chan (s.channels ch) >>= (λ c. returns (left topic ch chs c s))) ≡ returns t =
        rw (p, remove_subscriber) at e in
      let (c, closed, same) = >>=-eq-returns (close_chan (s.channels ch)) _ k in
      (chs, c, p, closed, returns_inj same)
]

has_key-delete :
    (k j : ℕ) (m : ChanSet) → has_key j (delete k m) ≡ (if k == j then false else has_key j m)
unfolding has_key
has_key-delete k j m = ground (arith, load-delete k j m)

left_set :
    (topic t : GoString) (ch : ℕ) (chs : ChanSet) (c : Chan Message) (s : PubSubServer)
    → load topic s.subscribers ≡ some chs
    → or_empty (load t (left topic ch chs c s).subscribers) ≡ (
        if topic == t
        then delete ch (or_empty (load t s.subscribers))
        else or_empty (load t s.subscribers))
left_set topic t ch chs c s e =
    ground (arith, load-store topic t (delete ch chs) s.subscribers, ==_iff topic t, e)

left-subscribes :
    (topic t : GoString) (ch i : ℕ) (chs : ChanSet) (c : Chan Message) (s : PubSubServer)
    → load topic s.subscribers ≡ some chs
    → subscribes t i (left topic ch chs c s) ≡ true
    → (subscribes t i s ≡ true) × (topic ≡ t → ch ≢ i)
left-subscribes topic t ch i chs c s e h =
    let set = left_set topic t ch chs c s e in
    let gone = has_key-delete ch i (or_empty (load t s.subscribers)) in
    (
      ground (arith, set, gone, h),
      λ p q. ground (arith, set, gone, h, ==_iff topic t, nat_beq_iff ch i),
    )

close_chan-keeps :
    (a c : Chan Message) → close_chan a ≡ returns c → WithinCapacity a → WithinCapacity c
unfolding close_chan
close_chan-keeps a c e h = elim (Bool-cases a.closed) [
  | inl p ↦ absurd (let k : panics ≡ returns c = rw (p, close_chan) at e in cc)
  | inr p ↦
      let k : returns (record a { closed = true }) ≡ returns c = rw (p, close_chan) at e in
      subst WithinCapacity (returns_inj k) h
]

-- What every step keeps
abbrev pub Kept : PubSubServer → Type 0
Kept s = IsSound s × Single s

left-Single :
    (topic : GoString) (ch : ℕ) (chs : ChanSet) (c : Chan Message) (s : PubSubServer)
    → load topic s.subscribers ≡ some chs
    → Single s
    → Single (left topic ch chs c s)
left-Single topic ch chs c s e single t u i h k =
    single t u i (left-subscribes topic t ch i chs c s e h).0
      (left-subscribes topic u ch i chs c s e k).0

left-IsSound :
    (topic : GoString) (ch : ℕ) (chs : ChanSet) (c : Chan Message) (s : PubSubServer)
    → subscribes topic ch s ≡ true
    → load topic s.subscribers ≡ some chs
    → close_chan (s.channels ch) ≡ returns c
    → Kept s
    → IsSound (left topic ch chs c s)
unfolding update
left-IsSound topic ch chs c s there e closed (sound, single) = record {
  known = λ t i h.
      let (old, apart) = left-subscribes topic t ch i chs c s e h in
      let other : ch ≢ i = λ same.
        apart (single topic t i (subst (λ x. subscribes topic x s ≡ true) same there) old) same in
      ground (arith, sound.known t i old, other);
  unique = λ t. rw (left_set topic t ch chs c s e) (elim (Bool-cases (topic == t)) [
    | inl p ↦ rw p (delete-Unique ch (or_empty (load t s.subscribers)) (sound.unique t))
    | inr p ↦ rw p (sound.unique t)
  ]);
  room =
      λ i. ground (arith, sound.room i, close_chan-keeps (s.channels ch) c closed (sound.room ch));
}

removed-Kept :
    (topic : GoString) (ch : ℕ) (s t : PubSubServer)
    → subscribes topic ch s ≡ true
    → remove_subscriber topic ch s ≡ returns t
    → Kept s
    → Kept t
removed-Kept topic ch s t there e kept =
    let (chs, c, found, closed, same) = left_by topic ch s t there e in
    subst Kept same (
      left-IsSound topic ch chs c s there found closed kept,
      left-Single topic ch chs c s found kept.1,
    )

publish-Single :
    (msg : Message) (s t : PubSubServer) → publish msg s ≡ returns t → Kept s → Single t
publish-Single msg s t e (sound, single) =
    let (u, done, subs, count, each) = publish-offers msg s sound in
    let same : u ≡ t = cc in subst Single same (same-Single s u subs single)

handed-Single :
    (send : Message → MaybeError) (ch : ℕ) (msg : Message) (s t : PubSubServer)
    → serve_message send ch s ≡ goes_on msg t
    → Single s
    → Single t
handed-Single send ch msg s t e single =
    let (rest, oldest, same) = handed_oldest send ch msg s t e in subst Single same single

pub Step-Kept : {s t : PubSubServer} → Step s t → Kept s → Kept t
Step-Kept {s} (subscribed topic) (sound, single) =
    (open_subscription-IsSound topic s sound, open_subscription-Single topic s sound single)
Step-Kept {s} {t} (published msg e) kept =
    (publish-IsSound msg s t e kept.0, publish-Single msg s t e kept)
Step-Kept {s} {t} (handed send ch msg e) kept =
    (handed-IsSound send ch msg s t e kept.0, handed-Single send ch msg s t e kept.1)
Step-Kept {s} {t} (removed topic ch there e) kept = removed-Kept topic ch s t there e kept

pub Reach-Kept : {s t : PubSubServer} → Reach s t → Kept s → Kept t
Reach-Kept here kept = kept
Reach-Kept (next r step) kept = Step-Kept step (Reach-Kept r kept)

new_pub_sub_server-Kept : Kept new_pub_sub_server
unfolding has_key load
new_pub_sub_server-Kept = (
  record { known = λ topic ch h. cc; unique = λ topic. tt; room = λ ch. ground arith },
  λ t u ch h k. cc,
)

pub reached-Kept : {s : PubSubServer} → Reach new_pub_sub_server s → Kept s
reached-Kept r = Reach-Kept r new_pub_sub_server-Kept

-- Every server that a run from a new server reaches is sound, whatever subscriptions were opened and
-- removed on the way: the channels of its sets have been created and are open, no set has a channel
-- twice, and no buffer holds more than its capacity.
pub reached-IsSound : {s : PubSubServer} → Reach new_pub_sub_server s → IsSound s
reached-IsSound r = (reached-Kept r).0
