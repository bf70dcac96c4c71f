-- ===== src/Holmes/Last.antt =====
-- A configuration that arrives decides alone what the profiler manager runs; and what init leaves.
use panda_go.Prelude.{
  ◌≡◌, ◌⊎◌, inl, inr, refl, Bool, true, false, none, some, Option, [], ◌∷◌, ◌++◌, if◌then◌else◌,
  subst, sym, ap, ◌∙◌,
}
use panda_go.Go.Text.{GoString, lit}
use panda_go.Go.Error.{Error, MaybeError, Result, ok, err}
use panda_go.Go.Outcome.{Outcome, returns, panics, ◌>>=◌, >>=-eq-returns, returns_inj}
use panda_go.External.Retry.{RetryLib}
use panda_go.Nacos.Param.{Env, with_data_id}
use panda_go.Nacos.Client.{Sdk, NacosClient, Getting, Publishing, get_config, publish_config}
use panda_go.Holmes.{HolmesConfig, options_of, dumps_of, base_options}
use panda_go.Holmes.Manager.{
  Manager, Trigger, Library, stop_running, stop_trigger_holmes, start_made, create_enabled,
  create_trigger_holmes, apply_config, handle_config, track, init_with, init_default, init,
  init_read, init_published, config_key, default_config,
}

module _ {T : Type 0} where
  -- The profiler that an outcome leaves running
  abbrev pub left : Outcome (Manager T) → Outcome (Option (Trigger T))
  left o = o >>= (λ m. returns m.trigger_holmes)

  >>=-left :
      {A : Type 0} (o : Outcome A) (f g : A → Outcome (Manager T))
      → ((a : A) → left (f a) ≡ left (g a))
      → left (o >>= f) ≡ left (o >>= g)
  >>=-left (returns a) f g h = h a
  >>=-left panics f g h = refl

  module _ (lib : Library T) where
    -- The manager before a configuration is applied: no profiler runs.
    stop-none :
        (o : Option (Trigger T)) (m : Manager T)
        → m.trigger_holmes ≡ o
        → (stop_running o m).trigger_holmes ≡ none
    stop-none none m e = e
    stop-none (some t) m e = refl

    stop_trigger_holmes-none : (m : Manager T) → (stop_trigger_holmes m).trigger_holmes ≡ none
    unfolding stop_trigger_holmes
    stop_trigger_holmes-none m = stop-none m.trigger_holmes m refl

    start_made-left :
        (c : HolmesConfig) (m n : Manager T) (r : Result T)
        → m.trigger_holmes ≡ n.trigger_holmes
        → left (start_made (track (record m { holmes_config = c })) r)
          ≡ left (start_made (track (record n { holmes_config = c })) r)
    start_made-left c m n (err e) h = ap returns h
    start_made-left c m n (ok t) h = >>=-left (dumps_of c.items) _ _ (λ ds. refl)

    create-left :
        (on : Bool) (c : HolmesConfig) (m n : Manager T)
        → m.trigger_holmes ≡ n.trigger_holmes
        → left (
            if on
            then create_enabled lib (record m { holmes_config = c })
            else returns (record m { holmes_config = c }))
          ≡ left (
              if on
              then create_enabled lib (record n { holmes_config = c })
              else returns (record n { holmes_config = c }))
    unfolding create_enabled
    create-left false c m n h = ap returns h
    create-left true c m n h = >>=-left (options_of c.items) _ _ (λ os.
        start_made-left c m n (lib.new (base_options (lit "trigger") c.trigger_name ++ os)) h)

    apply_config-left :
        (r : Result (Option HolmesConfig)) (m n : Manager T)
        → m.trigger_holmes ≡ n.trigger_holmes
        → left (apply_config lib m r) ≡ left (apply_config lib n r)
    unfolding create_trigger_holmes
    apply_config-left (err e) m n h = ap returns h
    apply_config-left (ok none) m n h = refl
    apply_config-left (ok (some c)) m n h = create-left c.enable c m n h

    -- Which profiler runs after the handler of the configuration, and whether the handler panics,
    -- depends on the text that arrives alone, and not on what ran or arrived before.
    pub handle_config-last :
        (val : GoString) (m n : Manager T)
        → left (handle_config lib val m) ≡ left (handle_config lib val n)
    unfolding handle_config
    handle_config-last [] m n =
        ap returns (stop_trigger_holmes-none m ∙ sym (stop_trigger_holmes-none n))
    handle_config-last (x ∷ val) m n =
        apply_config-left (lib.unmarshal (x ∷ val)) (stop_trigger_holmes m) (stop_trigger_holmes n)
          (stop_trigger_holmes-none m ∙ sym (stop_trigger_holmes-none n))

    module _ {H W : Type 0} (sdk : Sdk W) (env : Env) (handler : H)
        (getting : RetryLib (Getting H W)) (publishing : RetryLib (Publishing H W)) where
      abbrev pub Tracks : Manager T → Type 0
      Tracks m = (m.rates.mutex_fraction ≡ 1) × (m.rates.block_rate ≡ 1)

      init_with-Tracks :
          (val : GoString) (m n : Manager T) (c d : NacosClient H W)
          → init_with lib sdk env handler getting publishing val m c ≡ returns (n, d)
          → Tracks n
      unfolding init_with
      init_with-Tracks val m n c d h =
          let (k, e, f) = >>=-eq-returns (handle_config lib val m) _ h in
          subst (λ p. Tracks p.0) (returns_inj f) (refl, refl)

      -- The read of the configuration, and the publication of the default one after it
      abbrev pub read : NacosClient H W → (GoString × MaybeError) × NacosClient H W
      read c = get_config sdk env getting (with_data_id (config_key env)) c

      abbrev pub published : NacosClient H W → MaybeError × Publishing H W
      published c =
          publish_config sdk env publishing
            (record (with_data_id (config_key env)) {
              content = lib.marshal (default_config env.server_name);
            })
            [] (read c).1

      -- Neither the read nor the publication succeeded.
      abbrev pub Fails : NacosClient H W → Type 0
      Fails c = (e f : Error) × ((read c).0.1 ≡ some e) × ((published c).0 ≡ some f)

      init_published-Tracks :
          (f : MaybeError) (m n : Manager T) (c d b : NacosClient H W) (e : Error)
          → (read b).0.1 ≡ some e
          → (published b).0 ≡ f
          → init_published lib sdk env handler getting publishing f m c ≡ returns (n, d)
          → Tracks n ⊎ (Fails b × (n ≡ m))
      init_published-Tracks none m n c d b e k l h = inl (init_with-Tracks _ m n c d h)
      init_published-Tracks (some f) m n c d b e k l h =
          inr ((e, f, k, l), ap (λ p. p.0) (sym (returns_inj h)))

      init_read-Tracks :
          (e : MaybeError) (m n : Manager T) (c d : NacosClient H W)
          → (read c).0.1 ≡ e
          → init_read lib sdk env handler getting publishing e (read c).0.0 m (read c).1
            ≡ returns (n, d)
          → Tracks n ⊎ (Fails c × (n ≡ m))
      unfolding init_default
      init_read-Tracks none m n c d k h = inl (init_with-Tracks (read c).0.0 m n (read c).1 d h)
      init_read-Tracks (some e) m n c d k h =
          init_published-Tracks (published c).0 m n (published c).1.client d c e k refl h

      -- When init returns, mutex and block profiling are on, whatever the configuration says, also
      -- when it says that the profiler is off; only when the configuration could be neither read nor
      -- published is the manager as it was.
      pub init-Tracks :
          (m n : Manager T) (c d : NacosClient H W)
          → init lib sdk env handler getting publishing m c ≡ returns (n, d)
          → Tracks n ⊎ (Fails c × (n ≡ m))
      unfolding init
      init-Tracks m n c d h = init_read-Tracks (read c).0.1 m n c d refl h
