-- ===== src/Kafka/Producer.antt =====
-- component/kafka/producer/producer.go: the one producer of the process, a message that is sent, and
-- the test double of the SCRAM handshake. `P` are sarama's producers, `K` the state of the brokers.
use panda_go.Prelude.{ℕ, Bool, true, none, some, Option, [], if◌then◌else◌, ◌==◌, nat_eq, list_eq}
use panda_go.Go.Text.{GoString, lit, is_empty}
use panda_go.Go.Error.{MaybeError, Result, ok, err}
use panda_go.Go.Outcome.{Outcome, returns, panics}
use panda_go.Go.Process.{Process, runs, exits, and_then}
use panda_go.External.Retry.{RetryLib}
use panda_go.Nacos.Param.{Env}
use panda_go.Nacos.Client.{Sdk, NacosClient, Getting}
use panda_go.Kafka.{kafka_url}

pub record ProducerMessage : Type 0 where
  pub topic : GoString
  pub key : GoString
  pub value : GoString

-- github.com/IBM/sarama
pub record Sarama (P K : Type 0) : Type 0 where
  pub new_sync_producer : GoString → K → Result P × K
  pub send_message : P → ProducerMessage → K → (ℕ × ℕ × MaybeError) × K

pub record Producers (P K H W : Type 0) : Type 0 where
  pub once : Bool
  pub producer : Option P
  pub nacos : NacosClient H W
  pub brokers : K
  pub closed : Bool

module _ {P K H W : Type 0} where
  -- CloseKafkaProducer
  unfoldable pub close_kafka_producer : Producers P K H W → Producers P K H W
  close_kafka_producer s = record s { closed = elim s.producer [ none ↦ s.closed | some p ↦ true ] }

  abbrev pub keep_producer : Producers P K H W → Result P → Process (Producers P K H W)
  keep_producer s (ok p) = runs (record s { producer = some p; once = true })
  keep_producer s (err e) = exits (lit "sarama.NewConsumer error")

  module _ (sarama : Sarama P K) (sdk : Sdk W) (env : Env) (retry : RetryLib (Getting H W)) where
    -- The function that GetKafkaProducer gives to `once`
    unfoldable pub open_producer : Producers P K H W → Process (Producers P K H W)
    open_producer s =
        let (url, n) = kafka_url sdk env retry s.nacos in
        and_then url (λ u.
          let (r, k) = sarama.new_sync_producer u s.brokers in
          keep_producer (record s { nacos = n; brokers = k }) r)

    -- GetKafkaProducer
    unfoldable pub get_kafka_producer : Producers P K H W → Process (Option P × Producers P K H W)
    get_kafka_producer s =
        and_then (if s.once then runs s else open_producer s) (λ t. runs (t.producer, t))

    -- A method of a nil producer panics.
    abbrev pub send_with :
        ProducerMessage
        → Option P × Producers P K H W
        → Process (Outcome (MaybeError × Producers P K H W))
    send_with message (none, s) = runs panics
    send_with message (some p, s) =
        let ((_, _, e), k) = sarama.send_message p message s.brokers in
        runs (returns (e, record s { brokers = k }))

    -- SentTopicMessage
    unfoldable pub sent_topic_message :
        GoString
        → GoString
        → GoString
        → Producers P K H W
        → Process (Outcome (MaybeError × Producers P K H W))
    sent_topic_message topic key value s =
        let message : ProducerMessage = record { topic = topic; key = key; value = value } in
        and_then (get_kafka_producer s) (λ r. send_with message r)

-- MockSCRAMClient
pub record MockScramClient : Type 0 where
  pub is_done : Bool

unfoldable pub step : GoString → MockScramClient → (GoString × MaybeError) × MockScramClient
step challenge m =
    if is_empty challenge
    then ((lit "ping", none), m)
    else if challenge == lit "pong"
    then (([], none), record m { is_done = true })
    else (([], some (lit "failed to authenticate :(")), m)
