-- ===== src/Publish/Topics/Ending.antt =====
-- How a subscription of publish/v2/main.go ends.
use panda_go.Prelude.{
  ℕ, true, false, ◌≡◌, refl, subst, some, arith, inl, inr, ◌⊎◌, nat_beq_iff, nat_eq, list_eq,
  Bool-cases, Option-cases, ==_iff,
}
use panda_go.Go.Text.{GoString}
use panda_go.Go.Map.{load, store, delete, has_key}
use panda_go.Go.Outcome.{panics}
use panda_go.Go.Chan.{Chan, close_chan}
use panda_go.Publish.Topics.{
  Message, ChanSet, PubSubServer, update, or_empty, add_subscriber, open_subscription,
  remove_subscriber, end_subscription,
}
use panda_go.Publish.Topics.Delivery.{IsSound, publish-offers}
use panda_go.Publish.Topics.Steps.{
  Step, subscribed, published, handed, Reach, here, next, removed, Kept, Step-Kept, Reach-Kept,
  reached-Kept, has_key-store, left, left_by, handed_oldest,
}
use panda_go.Publish.Topics.{new_pub_sub_server}

-- The topic has a set, which may be empty.
abbrev HasSet : GoString → PubSubServer → Type 0
HasSet topic s = has_key topic s.subscribers ≡ true

close_closed : (ch : Chan Message) → ch.closed ≡ true → close_chan ch ≡ panics
unfolding close_chan
close_closed ch h = rw h refl

opened-HasSet :
    (topic t : GoString) (s : PubSubServer)
    → (topic ≡ t) ⊎ HasSet t s
    → HasSet t (open_subscription topic s).1
unfolding open_subscription add_subscriber
opened-HasSet topic t s h = ground (
  arith,
  has_key-store topic t (store s.next tt (or_empty (load topic s.subscribers))) s.subscribers,
  ==_iff topic t,
  h,
)

left-HasSet :
    (topic t : GoString) (ch : ℕ) (chs : ChanSet) (c : Chan Message) (s : PubSubServer)
    → HasSet t s
    → HasSet t (left topic ch chs c s)
left-HasSet topic t ch chs c s h =
    ground (arith, has_key-store topic t (delete ch chs) s.subscribers, h)

Step-HasSet :
    (topic : GoString) {s t : PubSubServer} → IsSound s → Step s t → HasSet topic s → HasSet topic t
Step-HasSet topic sound (subscribed t) h = opened-HasSet t topic _ (inr h)
Step-HasSet topic {s} {t} sound (published msg e) h =
    let (u, done, subs, count, each) = publish-offers msg s sound in
    let same : u ≡ t = cc in subst (HasSet topic) same (rw subs h)
Step-HasSet topic sound (handed send ch msg e) h =
    let (rest, oldest, same) = handed_oldest send ch msg _ _ e in subst (HasSet topic) same h
Step-HasSet topic {s} {t} sound (removed u ch there e) h =
    let (chs, c, found, closed, same) = left_by u ch s t there e in
    subst (HasSet topic) same (left-HasSet u topic ch chs c s h)

-- Closing a channel that is open leaves a closed one, so the second close panics.
close_twice :
    (topic : GoString) (ch : ℕ) (s : PubSubServer) (chs : ChanSet)
    → load topic s.subscribers ≡ some chs
    → end_subscription topic ch s ≡ panics
unfolding end_subscription remove_subscriber close_chan update
close_twice topic ch s chs e = elim (Bool-cases (s.channels ch).closed) [
  | inl p ↦ rw (e, p, remove_subscriber, close_chan) refl
  | inr p ↦ rw (e, p, remove_subscriber, close_chan, (nat_beq_iff ch ch).1 refl) refl
]

Reach-HasSet :
    (topic : GoString) {s t : PubSubServer} → Kept s → Reach s t → HasSet topic s → HasSet topic t
Reach-HasSet topic kept here h = h
Reach-HasSet topic kept (next r step) h =
    Step-HasSet topic (Reach-Kept r kept).0 step (Reach-HasSet topic kept r h)

end_panics :
    (topic : GoString) (ch : ℕ) (s : PubSubServer)
    → HasSet topic s
    → end_subscription topic ch s ≡ panics
unfolding has_key
end_panics topic ch s h = elim (Option-cases (load topic s.subscribers)) [
  | inl e ↦ let k : false ≡ true = rw (e, has_key) at h in cc
  | inr (chs, e) ↦ close_twice topic ch s chs e
]

-- A subscription that is opened in a reachable server, on any topic, cannot end: whatever steps
-- follow, the deferred function of Subscribe panics.
pub ended_subscription_panics :
    (topic : GoString) {s t : PubSubServer}
    → Reach new_pub_sub_server s
    → Reach (open_subscription topic s).1 t
    → end_subscription topic (open_subscription topic s).0 t ≡ panics
ended_subscription_panics topic {s} {t} before after =
    end_panics topic (open_subscription topic s).0 t (
      Reach-HasSet topic (Step-Kept (subscribed topic) (reached-Kept before)) after
        (opened-HasSet topic topic s (inl refl)))
