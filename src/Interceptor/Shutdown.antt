-- ===== src/Interceptor/Shutdown.antt =====
-- common/interceptor/init.go: how a process sets its tracer up, and what it closes when it is told to
-- quit. `R` are tracers with their closers, `T` profilers.
use panda_go.Prelude.{ℕ, ◌≡◌, refl, Bool, true, none, some, Option, List, [], ◌∷◌}
use panda_go.Go.Text.{GoString, lit}
use panda_go.Go.Error.{MaybeError, Result, ok, err}
use panda_go.Go.Outcome.{returns}
use panda_go.Holmes.Manager.{Manager, Library, stop_trigger_holmes}
use panda_go.Holmes.Runs.{Event, run_events, new_manager, run_events-IsSound, stop-Idle}
use panda_go.Kafka.Consumer.{Consumers, close_kafka_client}
use panda_go.Kafka.Producer.{Producers, close_kafka_producer}

-- How the set-up ends
pub data Started (R : Type 0) : Type 0 where
  traces : GoString → R → Started R
  crashes : Started R
  quits : GoString → Started R

abbrev pub service_name : GoString → GoString
service_name [] = lit "panda-default"
service_name (c ∷ name) = c ∷ name

abbrev pub traced : {R : Type 0} → GoString → Result R → Started R
traced name (ok r) = traces name r
traced name (err e) = quits e

-- init: the configuration from the environment, which is nil beside an error, by its service name; the
-- error is logged and the configuration is read all the same.
unfoldable pub init_tracer :
    {R : Type 0} → Option GoString × MaybeError → (GoString → Result R) → Started R
init_tracer (none, e) new_tracer = crashes
init_tracer (some name, e) new_tracer = traced (service_name name) (new_tracer (service_name name))

-- What the goroutine of init reaches, and the code with which the process has ended
pub record Running (T C G P K H W : Type 0) : Type 0 where
  pub tracer_closed : Bool
  pub manager : Manager T
  pub consumers : Consumers C G K H W
  pub producers : Producers P K H W
  pub exit_code : Option ℕ

-- A thing that was opened is closed.
abbrev pub Closed : {A : Type 0} → Option A → Bool → Type 0
Closed none closed = Unit
Closed (some a) closed = closed ≡ true

-- Whether a thing is closed once what was opened has been closed
abbrev closed_after : {A : Type 0} → Option A → Bool → Bool
closed_after o b = elim o [ none ↦ b | some a ↦ true ]

closed_after-Closed : {A : Type 0} (o : Option A) (b : Bool) → Closed o (closed_after o b)
closed_after-Closed none b = tt
closed_after-Closed (some a) b = refl

module _ {T C G P K H W : Type 0} where
  -- What follows a signal: ClosePrometheus asks a context for its channel and does nothing with it.
  unfoldable pub shut_down : Running T C G P K H W → Running T C G P K H W
  shut_down r = record {
    tracer_closed = true;
    manager = stop_trigger_holmes r.manager;
    consumers = close_kafka_client r.consumers;
    producers = close_kafka_producer r.producers;
    exit_code = some 1;
  }

  -- Whatever configurations the profiler had and whenever it was stopped: after a signal every profiler
  -- that was ever started is stopped, none runs, the consumer, the consumer group and the producer are
  -- closed if they were opened, the tracer is closed, and the process ends with code 1.
  pub shut_down-Closed :
      (lib : Library T) (events : List Event) (r : Running T C G P K H W)
      → run_events lib events new_manager ≡ returns r.manager
      → ((shut_down r).manager.started ≡ (shut_down r).manager.stopped)
        × ((shut_down r).manager.trigger_holmes ≡ none)
        × Closed (shut_down r).consumers.client (shut_down r).consumers.closed_client
        × Closed (shut_down r).consumers.consumer_group (shut_down r).consumers.closed_group
        × Closed (shut_down r).producers.producer (shut_down r).producers.closed
        × ((shut_down r).tracer_closed ≡ true)
        × ((shut_down r).exit_code ≡ some 1)
  unfolding shut_down close_kafka_client close_kafka_producer
  shut_down-Closed lib events r h =
      let idle = stop-Idle lib r.manager (run_events-IsSound lib events r.manager h) in
      (
        idle.0,
        idle.1,
        closed_after-Closed r.consumers.client r.consumers.closed_client,
        closed_after-Closed r.consumers.consumer_group r.consumers.closed_group,
        closed_after-Closed r.producers.producer r.producers.closed,
        refl,
        refl,
      )
