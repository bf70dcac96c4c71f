-- ===== src/Kafka/Consumer.antt =====
-- component/kafka/consumer/consumer.go: the package's variables, and the functions that hand out the
-- client, the consumer group and the channel of a topic. `C` are sarama's consumers, `G` its consumer
-- groups, `K` the state of the brokers, `M` the messages.
use panda_go.Prelude.{
  ℕ, suc, Bool, true, none, some, Option, List, [], ◌∷◌, ◌++◌, if◌then◌else◌, nat_eq, list_eq,
}
use panda_go.Go.Text.{GoString, lit}
use panda_go.Go.Map.{GoMap, load, store}
use panda_go.Go.Error.{Result, ok, err}
use panda_go.Go.Process.{Process, runs, exits, and_then}
use panda_go.External.Retry.{RetryLib}
use panda_go.Nacos.Param.{Env}
use panda_go.Nacos.Client.{Sdk, NacosClient, Getting}
use panda_go.Kafka.{kafka_url}

-- github.com/IBM/sarama
pub record Sarama (C G K : Type 0) : Type 0 where
  pub new_consumer : GoString → K → Result C × K
  pub new_consumer_group : GoString → GoString → K → Result G × K

-- A call of Consume: the group, the topic, and the channel of the handler
pub record Consuming (G : Type 0) : Type 0 where
  pub group : G
  pub topic : GoString
  pub messages : ℕ

-- The goroutine of GetTopicMessageChan before it runs
pub record Waiting : Type 0 where
  pub topic : GoString
  pub is_need_diff_group : Bool
  pub messages : ℕ

-- The package's variables; channels are known by their numbers, the next of which is `next`.
pub record Consumers (C G K H W : Type 0) : Type 0 where
  pub once : Bool
  pub once_consumer : Bool
  pub client : Option C
  pub consumer_group : Option G
  pub topic2_message_chan_map : GoMap GoString ℕ
  pub next : ℕ
  pub waiting : List Waiting
  pub consuming : List (Consuming G)
  pub nacos : NacosClient H W
  pub brokers : K
  pub closed_client : Bool
  pub closed_group : Bool

unfoldable pub group_name : Env → Bool → GoString
group_name env is_need_diff_group =
    (if is_need_diff_group then env.pod_name else env.server_name) ++ lit "_consumer_group"

module _ {C G K H W : Type 0} where
  -- CloseKafkaClient
  unfoldable pub close_kafka_client : Consumers C G K H W → Consumers C G K H W
  close_kafka_client s = record s {
    closed_client = elim s.client [ none ↦ s.closed_client | some c ↦ true ];
    closed_group = elim s.consumer_group [ none ↦ s.closed_group | some g ↦ true ];
  }

  abbrev pub keep_client : Consumers C G K H W → Result C → Process (Consumers C G K H W)
  keep_client s (ok c) = runs (record s { client = some c; once = true })
  keep_client s (err e) = exits (lit "sarama.NewConsumer error")

  abbrev pub keep_group : Consumers C G K H W → Result G → Process (Consumers C G K H W)
  keep_group s (ok g) = runs (record s { consumer_group = some g; once_consumer = true })
  keep_group s (err e) = exits (lit "Error creating consumer group")

  module _ (sarama : Sarama C G K) (sdk : Sdk W) (env : Env) (retry : RetryLib (Getting H W)) where
    -- The function that GetKafkaClient gives to `once`
    unfoldable pub open_client : Consumers C G K H W → Process (Consumers C G K H W)
    open_client s =
        let (url, n) = kafka_url sdk env retry s.nacos in
        and_then url (λ u.
          let (r, k) = sarama.new_consumer u s.brokers in
          keep_client (record s { nacos = n; brokers = k }) r)

    -- GetKafkaClient
    unfoldable pub get_kafka_client : Consumers C G K H W → Process (Option C × Consumers C G K H W)
    get_kafka_client s =
        and_then (if s.once then runs s else open_client s) (λ t. runs (t.client, t))

    -- The function that GetKafkaConsumer gives to `onceConsumer`
    unfoldable pub open_group : Bool → Consumers C G K H W → Process (Consumers C G K H W)
    open_group is_need_diff_group s =
        let (url, n) = kafka_url sdk env retry s.nacos in
        and_then url (λ u.
          let (r, k) = sarama.new_consumer_group u (group_name env is_need_diff_group) s.brokers in
          keep_group (record s { nacos = n; brokers = k }) r)

    -- GetKafkaConsumer
    unfoldable pub get_kafka_consumer :
        Bool → Consumers C G K H W → Process (Option G × Consumers C G K H W)
    get_kafka_consumer is_need_diff_group s =
        and_then (if s.once_consumer then runs s else open_group is_need_diff_group s)
          (λ t. runs (t.consumer_group, t))

    -- The goroutine of GetTopicMessageChan: a call of a method of a nil group is left out
    abbrev pub consume : Waiting → Option G × Consumers C G K H W → Consumers C G K H W
    consume w (none, s) = s
    consume w (some g, s) = record s {
      consuming = s.consuming ++ record { group = g; topic = w.topic; messages = w.messages } ∷ [];
    }

    unfoldable pub run_waiting : Waiting → Consumers C G K H W → Process (Consumers C G K H W)
    run_waiting w s = and_then (get_kafka_consumer w.is_need_diff_group s) (λ r. runs (consume w r))

  abbrev pub open_chan : GoString → Bool → Consumers C G K H W → ℕ × Consumers C G K H W
  open_chan topic is_need_diff_group s = (
    s.next,
    record s {
      next = suc s.next;
      waiting =
          s.waiting
          ++ record { topic = topic; is_need_diff_group = is_need_diff_group; messages = s.next }
            ∷ [];
      topic2_message_chan_map = store topic s.next s.topic2_message_chan_map;
    },
  )

  abbrev pub chan_found : GoString → Bool → Consumers C G K H W → Option ℕ → ℕ × Consumers C G K H W
  chan_found topic is_need_diff_group s none = open_chan topic is_need_diff_group s
  chan_found topic is_need_diff_group s (some ch) = (ch, s)

  -- GetTopicMessageChan
  unfoldable pub get_topic_message_chan :
      GoString → Bool → Consumers C G K H W → ℕ × Consumers C G K H W
  get_topic_message_chan topic is_need_diff_group s =
      chan_found topic is_need_diff_group s (load topic s.topic2_message_chan_map)
