-- ===== src/Kafka/Chans.antt =====
-- The channels of GetTopicMessageChan: one for each topic, with one consumption of the topic.
use panda_go.Prelude.{
  ℕ, ◌<◌, ◌≡◌, ◌↔◌, refl, Bool, Option, none, some, List, [], ◌∷◌, arith, nat_eq, list_eq, ==_iff,
}
use panda_go.Go.Text.{GoString}
use panda_go.Go.Map.{load, load-store, load-store_self}
use panda_go.Kafka.Consumer.{Consumers, get_topic_message_chan, open_chan, chan_found}

module _ {C G K H W : Type 0} where
  -- Every channel in the map has been made, and belongs to one topic.
  abbrev pub Injective : Consumers C G K H W → Type 0
  Injective s =
      (a b : GoString) (n : ℕ)
      → load a s.topic2_message_chan_map ≡ some n
      → (n < s.next) × (load b s.topic2_message_chan_map ≡ some n → a ≡ b)

  Injective-same :
      (a b : GoString) (n m : ℕ) (s : Consumers C G K H W)
      → Injective s
      → load a s.topic2_message_chan_map ≡ some n
      → load b s.topic2_message_chan_map ≡ some m
      → (m ≡ n) ↔ (a ≡ b)
  Injective-same a b n m s i h k = ground (arith, i a b n)

  -- What a call for the topic returns, before and after other calls
  pub record Asked (topic : GoString) (s : Consumers C G K H W) (r : ℕ × Consumers C G K H W)
      : Type 0 where
    pub entered : load topic r.1.topic2_message_chan_map ≡ some r.0
    pub kept :
        (a : GoString) (n : ℕ)
        → load a s.topic2_message_chan_map ≡ some n
        → load a r.1.topic2_message_chan_map ≡ some n
    pub injective : Injective r.1

  open_chan-Asked :
      (topic : GoString) (b : Bool) (s : Consumers C G K H W)
      → Injective s
      → load topic s.topic2_message_chan_map ≡ none
      → Asked topic s (open_chan topic b s)
  open_chan-Asked topic b s i missing = record {
    entered = load-store_self topic s.next s.topic2_message_chan_map;
    kept = λ a n h.
        ground (arith, load-store topic a s.next s.topic2_message_chan_map, ==_iff topic a);
    injective = λ a c n h. ground (
      arith,
      load-store topic a s.next s.topic2_message_chan_map,
      load-store topic c s.next s.topic2_message_chan_map,
      ==_iff topic a,
      ==_iff topic c,
      i a c n,
      i c a n,
    );
  }

  chan_found-Asked :
      (topic : GoString) (b : Bool) (s : Consumers C G K H W)
      → Injective s
      → (o : Option ℕ) → load topic s.topic2_message_chan_map ≡ o
      → Asked topic s (chan_found topic b s o)
  chan_found-Asked topic b s i none missing = open_chan-Asked topic b s i missing
  chan_found-Asked topic b s i (some n) there = record {
    entered = there;
    kept = λ a n h. h;
    injective = i;
  }

  get_topic_message_chan-Asked :
      (topic : GoString) (b : Bool) (s : Consumers C G K H W)
      → Injective s
      → Asked topic s (get_topic_message_chan topic b s)
  unfolding get_topic_message_chan
  get_topic_message_chan-Asked topic b s i = chan_found-Asked topic b s i _ refl

  -- A sequence of calls, each with its topic and its flag
  abbrev pub ask_all : List (GoString × Bool) → Consumers C G K H W → Consumers C G K H W
  ask_all [] s = s
  ask_all ((topic, b) ∷ rest) s = ask_all rest (get_topic_message_chan topic b s).1

  ask_all-kept :
      (calls : List (GoString × Bool)) (s : Consumers C G K H W)
      → Injective s
      → Injective (ask_all calls s)
        × ((a : GoString) (n : ℕ)
            → load a s.topic2_message_chan_map ≡ some n
            → load a (ask_all calls s).topic2_message_chan_map ≡ some n)
  ask_all-kept [] s i = (i, λ a n h. h)
  ask_all-kept ((topic, b) ∷ rest) s i =
      let asked = get_topic_message_chan-Asked topic b s i in
      let (j, later) = ask_all-kept rest (get_topic_message_chan topic b s).1 asked.injective in
      (j, λ a n h. later a n (asked.kept a n h))

  -- When GetTopicMessageChan is called for one topic and, after any other calls, for another, it
  -- returns the same channel if and only if the topics are equal.
  pub get_topic_message_chan-same :
      (first second : GoString) (b d : Bool) (calls : List (GoString × Bool))
      (s : Consumers C G K H W)
      → Injective s
      → ((get_topic_message_chan second d (ask_all calls (get_topic_message_chan first b s).1)).0
          ≡ (get_topic_message_chan first b s).0)
        ↔ (first ≡ second)
  get_topic_message_chan-same first second b d calls s i =
      let one = get_topic_message_chan-Asked first b s i in
      let between = (get_topic_message_chan first b s).1 in
      let (j, later) = ask_all-kept calls between one.injective in
      let two = get_topic_message_chan-Asked second d (ask_all calls between) j in
      let old = two.kept first _ (later first _ one.entered) in
      let end = (get_topic_message_chan second d (ask_all calls between)).1 in
      Injective-same first second _ _ end two.injective old two.entered
