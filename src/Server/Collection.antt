-- ===== src/Server/Collection.antt =====
-- common/grpc-wrapper/grpc_server_wrapper/prometheus_wrapper/prometheus.go: the counts of goroutines
-- that the processes push through Kafka, and their collection. `F` are the floats of the gauge.
use panda_go.Prelude.{
  ℕ, Bool, true, false, ◌≡◌, refl, none, some, List, [], ◌∷◌, ◌++◌, map, All, nat_eq, list_eq,
}
use panda_go.Go.Text.{GoString, lit, split}
use panda_go.Go.Text.Split.{Lacks, split_whole, split-append}
use panda_go.Go.Error.{Error, MaybeError, Result, ok, err}
use panda_go.Go.Outcome.{Outcome, returns, panics}
use panda_go.Go.Process.{Process, runs, and_then}
use panda_go.External.Retry.{RetryLib}
use panda_go.Nacos.Param.{Env}
use panda_go.Nacos.Client.{Sdk, Getting}
use panda_go.Kafka.Producer.{Sarama, Producers, sent_topic_message}

-- The key and the value of a sarama.ConsumerMessage
pub record Message : Type 0 where
  pub key : GoString
  pub value : GoString

-- One call of Set on the gauge, with its two labels
pub record Sample (F : Type 0) : Type 0 where
  pub service_name : GoString
  pub pod_name : GoString
  pub count : F

-- The two parts of a key, if there are two
abbrev pub sample_of : {F : Type 0} → List GoString → F → List (Sample F)
sample_of (service ∷ pod ∷ []) count =
    record { service_name = service; pod_name = pod; count = count } ∷ []
sample_of _ count = []

-- What the loop has set, and whether it has ended
pub record Collected (F : Type 0) : Type 0 where
  pub samples : List (Sample F)
  pub ended : Bool

module _ {F : Type 0} (parse_float : GoString → Result F) where
  abbrev pub note_count : Message → Result F → Collected F → Collected F
  note_count msg (err e) rest = record { samples = []; ended = true }
  note_count msg (ok count) rest = record rest {
    samples = sample_of (split msg.key b'/') count ++ rest.samples;
  }

  -- updateGoroutineCount, over the messages that the topic delivers
  unfoldable pub update_goroutine_count : List Message → Collected F
  update_goroutine_count [] = record { samples = []; ended = false }
  update_goroutine_count (msg ∷ msgs) =
      note_count msg (parse_float msg.value) (update_goroutine_count msgs)

-- The key under which a process pushes
abbrev pub push_key : GoString → GoString → GoString
push_key service pod = service ++ b'/' ∷ pod

module _ {P K H W : Type 0} (sarama : Sarama P K) (sdk : Sdk W) (env : Env)
    (retry : RetryLib (Getting H W)) (decimal : ℕ → GoString) where
  abbrev pub after_push :
      (Producers P K H W → Process (Outcome (Producers P K H W)))
      → Outcome (MaybeError × Producers P K H W)
      → Process (Outcome (Producers P K H W))
  after_push rest panics = runs panics
  after_push rest (returns (some e, s)) = runs (returns s)
  after_push rest (returns (none, s)) = rest s

  -- The goroutine of InitPushPrometheus, with the number of goroutines at each tick
  unfoldable pub push_goroutine_counts :
      List ℕ → Producers P K H W → Process (Outcome (Producers P K H W))
  push_goroutine_counts [] s = runs (returns s)
  push_goroutine_counts (n ∷ ns) s =
      and_then
        (sent_topic_message sarama sdk env retry (lit "panda_goroutine_count")
          (push_key env.server_name env.pod_name) (decimal n) s)
        (after_push (λ t. push_goroutine_counts ns t))

module _ {F : Type 0} (parse_float : GoString → Result F) where
  -- A push of a process: its service, its pod, and the text of its count
  abbrev pub Push : Type 0
  Push = GoString × GoString × GoString

  abbrev pub message_of : Push → Message
  message_of (service, pod, text) = record { key = push_key service pod; value = text }

  -- Neither name has a slash, and the text is a number.
  abbrev pub IsPlain : Push × F → Type 0
  IsPlain ((service, pod, text), count) =
      Lacks b'/' service × Lacks b'/' pod × (parse_float text ≡ ok count)

  abbrev pub sample : Push × F → Sample F
  sample ((service, pod, text), count) = record {
    service_name = service;
    pod_name = pod;
    count = count;
  }

  split-push_key :
      (service pod : GoString)
      → Lacks b'/' service
      → Lacks b'/' pod
      → split (push_key service pod) b'/' ≡ service ∷ pod ∷ []
  split-push_key service pod h k = rw (split-append b'/' service pod h, split_whole b'/' pod k) refl

  -- Whatever well-formed counts the processes push, the collection sets the gauge for each, in
  -- order, under the service and the pod that pushed it, and goes on; a message whose value is no
  -- number ends it, so that nothing that comes later is set.
  pub update_goroutine_count-pushed :
      (pushes : List (Push × F)) (bad : Message) (e : Error) (later : List Message)
      → All IsPlain pushes
      → parse_float bad.value ≡ err e
      → (update_goroutine_count parse_float (map (λ p. message_of p.0) pushes)
          ≡ record { samples = map sample pushes; ended = false })
        × (update_goroutine_count parse_float (map (λ p. message_of p.0) pushes ++ bad ∷ later)
            ≡ record { samples = map sample pushes; ended = true })
  unfolding update_goroutine_count
  update_goroutine_count-pushed [] bad e later h k = (refl, rw k refl)
  update_goroutine_count-pushed (((service, pod, text), count) ∷ ps) bad e later ((h, k, n), hs) b =
      let (all, cut) = update_goroutine_count-pushed ps bad e later hs b in
      let parts = split-push_key service pod h k in
      (rw (n, all, parts) refl, rw (n, cut, parts) refl)
