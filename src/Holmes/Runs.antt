-- ===== src/Holmes/Runs.antt =====
-- What the manager of the profiler keeps, whatever configurations arrive and whenever it is stopped.
use panda_go.Prelude.{
  ◌≡◌, refl, Bool, true, false, none, some, Option, List, [], ◌∷◌, ◌++◌, arith, if◌then◌else◌,
  append-nil, subst, sym, ap, ◌∙◌,
}
use panda_go.Go.Text.{GoString, lit}
use panda_go.Go.Error.{Result, ok, err}
use panda_go.Go.Outcome.{Outcome, returns, ◌>>=◌, >>=-eq-returns, returns_inj}
use panda_go.Holmes.{HolmesConfig, HolmesOption, options_of, dumps_of, base_options}
use panda_go.Holmes.Manager.{
  Manager, Trigger, Library, stop_running, stop_trigger_holmes, start_made, create_enabled,
  create_trigger_holmes, apply_config, handle_config, track,
}

pub data Event : Type 0 where
  configured : GoString → Event
  stop_asked : Event

module _ {T : Type 0} where
  abbrev pub running : Option (Trigger T) → List T
  running none = []
  running (some t) = t.profiler ∷ []

  -- The manager that the package creates
  abbrev pub new_manager : Manager T
  new_manager = record {
    trigger_holmes = none;
    holmes_config = record { enable = false; items = []; trigger_name = [] };
    rates = record { mutex_fraction = 0; block_rate = 0; cpu_rate = 0 };
    started = [];
    stopped = [];
  }

  module _ (lib : Library T) where
    -- The running profiler is what the configuration asks for.
    abbrev pub Wanted : HolmesConfig → Trigger T → Type 0
    Wanted c t =
        (c.enable ≡ true)
        × (dumps_of c.items ≡ returns t.dumps)
        × ((os : List HolmesOption) × (options_of c.items ≡ returns os)
            × (lib.new (base_options (lit "trigger") c.trigger_name ++ os) ≡ ok t.profiler))

    pub record IsSound (m : Manager T) : Type 0 where
      pub balance : m.started ≡ m.stopped ++ running m.trigger_holmes
      pub tracked :
          (t : Trigger T)
          → m.trigger_holmes ≡ some t
          → (m.rates.mutex_fraction ≡ 1) × (m.rates.block_rate ≡ 1)
      pub wanted : (t : Trigger T) → m.trigger_holmes ≡ some t → Wanted m.holmes_config t

    unfoldable pub run_events : List Event → Manager T → Outcome (Manager T)
    run_events [] m = returns m
    run_events (configured val ∷ es) m = handle_config lib val m >>= (λ n. run_events es n)
    run_events (stop_asked ∷ es) m = run_events es (stop_trigger_holmes m)

    -- After a stop there is no profiler.
    abbrev Idle : Manager T → Type 0
    Idle m = (m.started ≡ m.stopped) × (m.trigger_holmes ≡ none)

    Idle-IsSound : (m : Manager T) → Idle m → IsSound m
    Idle-IsSound m (same, idle) = record {
      balance = same ∙ (sym (append-nil m.stopped) ∙ ap (λ o. m.stopped ++ running o) (sym idle));
      tracked = λ t e. absurd (ground arith);
      wanted = λ t e. absurd (ground arith);
    }

    stop_running-Idle :
        (o : Option (Trigger T)) (m : Manager T)
        → m.trigger_holmes ≡ o
        → m.started ≡ m.stopped ++ running o
        → Idle (stop_running o m)
    stop_running-Idle none m e b = (b ∙ append-nil m.stopped, e)
    stop_running-Idle (some t) m e b = (b, refl)

    start_made-IsSound :
        (m n : Manager T) (os : List HolmesOption) (r : Result T)
        → Idle m
        → m.holmes_config.enable ≡ true
        → options_of m.holmes_config.items ≡ returns os
        → lib.new (base_options (lit "trigger") m.holmes_config.trigger_name ++ os) ≡ r
        → start_made (track m) r ≡ returns n
        → IsSound n
    start_made-IsSound m n os (err e) idle on h k made =
        subst IsSound (returns_inj made) (Idle-IsSound (track m) idle)
    start_made-IsSound m n os (ok t) idle on h k made =
        let (ds, e, f) = >>=-eq-returns (dumps_of m.holmes_config.items) _ made in
        subst IsSound (returns_inj f) (record {
          balance = ap (λ l. l ++ t ∷ []) idle.0;
          tracked = λ u x. (refl, refl);
          wanted = λ u x.
              let now : Trigger T = record { profiler = t; dumps = ds } in
              let same : now ≡ u = cc in subst (Wanted m.holmes_config) same (on, e, (os, h, k));
        })

    create_enabled-IsSound :
        (m n : Manager T)
        → Idle m
        → m.holmes_config.enable ≡ true
        → create_enabled lib m ≡ returns n
        → IsSound n
    unfolding create_enabled
    create_enabled-IsSound m n idle on h =
        let (os, e, made) = >>=-eq-returns (options_of m.holmes_config.items) _ h in
        start_made-IsSound m n os
          (lib.new (base_options (lit "trigger") m.holmes_config.trigger_name ++ os)) idle on e refl
          made

    create-IsSound :
        (on : Bool) (m n : Manager T)
        → Idle m
        → m.holmes_config.enable ≡ on
        → (if on then create_enabled lib m else returns m) ≡ returns n
        → IsSound n
    create-IsSound true m n idle e h = create_enabled-IsSound m n idle e h
    create-IsSound false m n idle e h = subst IsSound (returns_inj h) (Idle-IsSound m idle)

    apply_config-IsSound :
        (r : Result (Option HolmesConfig)) (m n : Manager T)
        → Idle m
        → apply_config lib m r ≡ returns n
        → IsSound n
    unfolding create_trigger_holmes
    apply_config-IsSound (err e) m n idle h = subst IsSound (returns_inj h) (Idle-IsSound m idle)
    apply_config-IsSound (ok none) m n idle h = ground arith
    apply_config-IsSound (ok (some c)) m n idle h =
        create-IsSound c.enable (record m { holmes_config = c }) n idle refl h

    pub stop-Idle : (m : Manager T) → IsSound m → Idle (stop_trigger_holmes m)
    unfolding stop_trigger_holmes
    stop-Idle m s = stop_running-Idle m.trigger_holmes m refl s.balance

    handle_config-IsSound :
        (val : GoString) (m n : Manager T)
        → IsSound m
        → handle_config lib val m ≡ returns n
        → IsSound n
    unfolding handle_config
    handle_config-IsSound [] m n s h =
        subst IsSound (returns_inj h) (Idle-IsSound (stop_trigger_holmes m) (stop-Idle m s))
    handle_config-IsSound (x ∷ val) m n s h =
        apply_config-IsSound (lib.unmarshal (x ∷ val)) (stop_trigger_holmes m) n (stop-Idle m s) h

    run-IsSound :
        (es : List Event) (m n : Manager T) → IsSound m → run_events es m ≡ returns n → IsSound n
    unfolding run_events
    run-IsSound [] m n s h = subst IsSound (returns_inj h) s
    run-IsSound (configured val ∷ es) m n s h =
        let (k, e, f) = >>=-eq-returns (handle_config lib val m) _ h in
        run-IsSound es k n (handle_config-IsSound val m k s e) f
    run-IsSound (stop_asked ∷ es) m n s h =
        run-IsSound es (stop_trigger_holmes m) n (Idle-IsSound _ (stop-Idle m s)) h

    -- After any sequence of configurations and stops that panics nowhere, every profiler that was
    -- started has been stopped, once and in order, but for the one that runs; and the one that runs
    -- was made from the options of the manager's configuration, which enables it, has the dumps of
    -- its items enabled, and has mutex and block profiling on.
    pub run_events-IsSound :
        (es : List Event) (n : Manager T) → run_events es new_manager ≡ returns n → IsSound n
    run_events-IsSound es n h =
        run-IsSound es new_manager n (Idle-IsSound new_manager (refl, refl)) h
