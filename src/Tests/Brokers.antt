-- ===== src/Tests/Brokers.antt =====
-- Kafka clients over the Nacos server of Tests.Configurations, and rate limiters.
use panda_go.Prelude.{
  ℕ, ◌+◌, ◌-◌, ◌*◌, leb, ltb, ◌≡◌, ◌≢◌, ◌≤◌, ◌↔◌, refl, true, false, none, some, Option, List, [],
  ◌∷◌, arith, nat_eq, list_eq,
}
use panda_go.Go.Text.{GoString, lit}
use panda_go.Go.Error.{ok}
use panda_go.Go.Process.{Process, runs, exits}
use panda_go.Kafka.{kafka_url}
use panda_go.Kafka.Claim.{Turn, of_claim, of_reader, start_claim, run_turns}
use panda_go.Kafka.Claim.Progress.{claim-Finishes}
use panda_go.Kafka.Claim.Refine.{topic_of, deliver, reader_turns, run_turns-Refines}
use panda_go.Kafka.Address.{From, kafka_url-From}
use panda_go.Kafka.Consumer.{Sarama, Consumers, get_kafka_consumer}
use panda_go.Limit.{Floats, TokenBucket, LeakyBucket, allow, allow_leaky}
use panda_go.Limit.Tokens.{Ordered, allow_all, Judged, allow_all-Judged}
use panda_go.Limit.Leaks.{allow_leaky_all, allow_leaky_all-stuck}
use panda_go.Tests.Configurations.{sdk, env, client, getter}

abbrev two_messages : List ℕ
two_messages = 1 ∷ 2 ∷ []

claim-Finishes_example :
    (us : List Turn) × ((run_turns us (run_turns (of_claim ∷ []) (start_claim two_messages))).taken
      ≡ two_messages)
    × ((run_turns us (run_turns (of_claim ∷ []) (start_claim two_messages))).marked ≡ two_messages)
claim-Finishes_example = claim-Finishes two_messages (of_claim ∷ [])

abbrev some_turns : List Turn
some_turns = of_claim ∷ of_reader ∷ of_reader ∷ of_claim ∷ []

run_turns-Refines_example :
    (n : ℕ) × (n ≤ reader_turns some_turns)
    × (topic_of (run_turns some_turns (start_claim two_messages))
        ≡ deliver n (record { delivered = []; due = two_messages }))
run_turns-Refines_example = run_turns-Refines two_messages some_turns

kafka_url-From_example :
    ((kafka_url sdk env getter client).0 ≡ runs (lit "on"))
    ↔ ((lit "on" ≢ []) × From sdk env getter client (lit "on"))
kafka_url-From_example = kafka_url-From sdk env getter client (lit "on")

-- Consumers are their addresses, groups their names.
abbrev sarama : Sarama GoString GoString ℕ
sarama = record { new_consumer = λ u k. (ok u, k + 1); new_consumer_group = λ u g k. (ok g, k + 1) }

abbrev no_consumers : Consumers GoString GoString ℕ ℕ ℕ
no_consumers = record {
  once = false;
  once_consumer = false;
  client = none;
  consumer_group = none;
  topic2_message_chan_map = [];
  next = 0;
  waiting = [];
  consuming = [];
  nacos = client;
  brokers = 0;
  closed_client = false;
  closed_group = false;
}

abbrev ran_or : {A : Type 0} → A → Process A → A
ran_or a (runs b) = b
ran_or a (exits e) = a

abbrev joined : Option GoString × Consumers GoString GoString ℕ ℕ ℕ
joined = ran_or (none, no_consumers) (get_kafka_consumer sarama sdk env getter true no_consumers)

-- Numbers from -1000 on, each as its distance from -1000
abbrev shifted : Floats ℕ
shifted = record {
  plus = λ a b. a + b - 1000;
  minus = λ a b. a + 1000 - b;
  times = λ a b. 1000 + (a - 1000) * (b - 1000);
  seconds = λ d. 1000 + d;
  above = λ a b. ltb b a;
  at_least = λ a b. leb b a;
  nought = 1000;
}

shifted-Ordered : Ordered shifted
shifted-Ordered = record {
  above-itself = λ x. ground arith;
  above-at_least = λ x y z h k. ground (arith, h, k);
}

abbrev bucket : TokenBucket ℕ
bucket = record { rate = 1002; capacity = 1010; tokens = 1004; last_refill = some 0 }

abbrev requests : List (ℕ × ℕ)
requests = (1, 1005) ∷ (3, 1100) ∷ (40, 1006) ∷ []

allow_all-Judged_example :
    Judged shifted requests bucket (true ∷ false ∷ true ∷ []) (allow_all shifted requests bucket).1
unfolding allow_all allow
allow_all-Judged_example = allow_all-Judged shifted shifted-Ordered bucket requests refl

abbrev leaky : LeakyBucket
leaky = record { rate = 1; bucket_size = 10; storage2_process = 3; last_leak_time = 0 }

allow_leaky_all-stuck_example :
    allow_leaky_all ((20, 1) ∷ (500, 4) ∷ []) leaky ≡ (false ∷ false ∷ [], leaky)
unfolding allow_leaky
allow_leaky_all-stuck_example =
    allow_leaky_all-stuck 9 1 leaky ((20, 1) ∷ (500, 4) ∷ []) refl
      ((omega arith, omega arith), ((omega arith, omega arith), tt))
