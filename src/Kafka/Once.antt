-- ===== src/Kafka/Once.antt =====
-- What `sync.Once` gives the Kafka clients: the first call opens, the later ones hand out the same.
use panda_go.Prelude.{
  ◌≡◌, refl, Bool, true, Option, some, arith, if◌then◌else◌, ap, sym, subst, ◌∙◌, Bool-cases, inl,
  inr,
}
use panda_go.Go.Error.{Result, ok, err}
use panda_go.Go.Process.{Process, runs, and_then, and_then-eq-runs, runs_inj}
use panda_go.External.Retry.{RetryLib}
use panda_go.Nacos.Param.{Env}
use panda_go.Nacos.Client.{Sdk, Getting}
use panda_go.Kafka.{kafka_url}
use panda_go.Kafka.Consumer.{
  Sarama, Consumers, keep_group, open_group, get_kafka_consumer, group_name,
}

module _ {C G K H W : Type 0} where
  -- Once the function given to onceConsumer has returned, there is a group.
  abbrev pub HasGroup : Consumers C G K H W → Type 0
  HasGroup s = s.once_consumer ≡ true → (g : G) × (s.consumer_group ≡ some g)

  abbrev pub Opened : Consumers C G K H W → Type 0
  Opened s = (s.once_consumer ≡ true) × ((g : G) × (s.consumer_group ≡ some g))

  keep_group-Opened :
      (s t : Consumers C G K H W) (r : Result G) → keep_group s r ≡ runs t → Opened t
  keep_group-Opened s t (ok g) h = subst Opened (runs_inj h) (refl, (g, refl))
  keep_group-Opened s t (err e) h = ground arith

  module _ (sarama : Sarama C G K) (sdk : Sdk W) (env : Env) (retry : RetryLib (Getting H W)) where
    open_group-Opened :
        (b : Bool) (s t : Consumers C G K H W)
        → open_group sarama sdk env retry b s ≡ runs t
        → Opened t
    unfolding open_group
    open_group-Opened b s t h =
        let (url, n) = kafka_url sdk env retry s.nacos in
        let (u, _, e) = and_then-eq-runs url _ h in
        let (r, k) = sarama.new_consumer_group u (group_name env b) s.brokers in
        keep_group-Opened (record s { nacos = n; brokers = k }) t r e

    -- The call of `once.Do`, when it is known whether the function has run
    abbrev do_once : Bool → Bool → Consumers C G K H W → Process (Consumers C G K H W)
    do_once c b s = if c then runs s else open_group sarama sdk env retry b s

    first_call :
        (b : Bool) (s t : Consumers C G K H W)
        → HasGroup s
        → do_once s.once_consumer b s ≡ runs t
        → Opened t
    first_call b s t g h = elim (Bool-cases s.once_consumer) [
      | inl is_set ↦
          (let same = runs_inj (sym (ap (λ c. do_once c b s) is_set) ∙ h) in
            subst Opened same (is_set, g is_set))
      | inr unset ↦ open_group-Opened b s t (sym (ap (λ c. do_once c b s) unset) ∙ h)
    ]

    -- The result of a call is a group, and it is the result of every later call.
    abbrev pub Kept : Option G → Consumers C G K H W → Type 0
    Kept r t =
        ((g : G) × (r ≡ some g))
        × HasGroup t
        × ((d : Bool) → get_kafka_consumer sarama sdk env retry d t ≡ runs (r, t))

    -- GetKafkaConsumer returns a group whenever it returns, and from then on every call returns that
    -- group and changes nothing, whether it asks for a group of the pod's own or for the service's.
    pub get_kafka_consumer-once :
        (b : Bool) (s t : Consumers C G K H W) (r : Option G)
        → HasGroup s
        → get_kafka_consumer sarama sdk env retry b s ≡ runs (r, t)
        → Kept r t
    unfolding get_kafka_consumer
    get_kafka_consumer-once b s t r g h =
        let (v, k, e) = and_then-eq-runs (do_once s.once_consumer b s) _ h in
        let (is_set, (a, held)) = first_call b s v g k in
        subst (λ q. Kept q.0 q.1) (runs_inj e)
          (
            (a, held),
            λ _. (a, held),
            λ d. ap (λ c. and_then (do_once c d v) (λ u. runs (u.consumer_group, u))) is_set,
          )
