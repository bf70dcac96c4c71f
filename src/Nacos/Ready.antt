-- ===== src/Nacos/Ready.antt =====
-- What a process that has got its Nacos client knows.
use panda_go.Prelude.{
  zero, suc, ◌≡◌, ◌≢◌, refl, Bool, true, false, none, some, Option, List, [], ◌∷◌, if◌then◌else◌,
  arith, sym, ap, subst, ◌∙◌,
}
use panda_go.Go.Text.{GoString, lit}
use panda_go.Go.Int.{ℤ, pos, negsuc}
use panda_go.Go.Error.{Result, ok, err}
use panda_go.Go.Process.{Process, runs, and_then, and_then-eq-runs, runs_inj}
use panda_go.Nacos.Param.{Env}
use panda_go.Nacos.Setup.{
  ClientSettings, ClientParam, SetupLib, Setup, dir_or, beat_or_default, complete_settings,
  keep_server, keep_client, settings, open_with, open_parsed, open_nacos, inner_or_exit,
  get_nacos_client,
}

-- Settings with which a client may be made
pub record IsComplete (is_windows : Bool) (server_name : GoString) (s : ClientSettings)
    : Type 0 where
  pub fresh : s.not_load_cache_at_start ≡ true
  pub updates : s.update_cache_when_empty ≡ true
  pub named : s.app_name ≡ server_name
  pub beats : s.beat_interval ≢ pos 0
  pub waits : s.timeout_ms ≢ 0
  pub cached : is_windows ≡ false → s.cache_dir ≢ []
  pub logged : is_windows ≡ false → s.log_dir ≢ []

dir_or-full :
    (is_windows : Bool) (dir other : GoString)
    → other ≢ []
    → is_windows ≡ false
    → dir_or is_windows dir other ≢ []
dir_or-full true dir other h e = ground arith
dir_or-full false [] other h e = h
dir_or-full false (c ∷ dir) other h e = λ k. ground arith

beat_or_default-nonzero : (n : ℤ) → beat_or_default n ≢ pos 0
beat_or_default-nonzero (pos zero) h = ground arith
beat_or_default-nonzero (pos (suc n)) h = ground arith
beat_or_default-nonzero (negsuc n) h = ground arith

complete_settings-IsComplete :
    (is_windows : Bool) (first second server_name : GoString) (s : ClientSettings)
    → IsComplete is_windows server_name (complete_settings is_windows first second server_name s)
unfolding complete_settings lit
complete_settings-IsComplete is_windows first second server_name s = record {
  fresh = refl;
  updates = refl;
  named = refl;
  beats = beat_or_default-nonzero s.beat_interval;
  waits = λ h. ground arith;
  cached = dir_or-full is_windows s.cache_dir _ (λ h. ground arith);
  logged = dir_or-full is_windows s.log_dir _ (λ h. ground arith);
}

module _ {A C V W : Type 0} (lib : SetupLib A C V W) (env : Env) (nacos_config : GoString) where
  -- The client and the server were made from a configuration of the environment.
  pub record Made (g : Setup C V W) (c : C) (v : V) : Type 0 where
    pub param : ClientParam A
    pub parsed : lib.unmarshal nacos_config ≡ ok param
    pub given : ClientSettings
    pub present : param.client_config ≡ some given
    pub reachable : param.server_configs ≢ []
    pub complete : IsComplete lib.is_windows env.server_name (settings lib env nacos_config given)
    pub client :
        (lib.new_config_client (settings lib env nacos_config given) param.server_configs g.world).0
        ≡ ok c

  -- What the function given to `one` leaves
  abbrev pub Opened : Setup C V W → Setup C V W → Type 0
  Opened g h =
      (h.once ≡ true) × ((c : C) × (v : V) × (h.inner_nacos_client ≡ some (c, v)) × Made g c v)

  keep_server-Opened :
      (g h : Setup C V W) (c : C) (r : Result V × W)
      → ((v : V) → Made g c v)
      → keep_server lib env nacos_config c g r ≡ runs h
      → Opened g h
  keep_server-Opened g h c (err e, w) m k = ground arith
  keep_server-Opened g h c (ok v, w) m k = subst (Opened g) (runs_inj k) (refl, (c, v, refl, m v))

  keep_client-Opened :
      (g h : Setup C V W) (servers : List A) (r : Result C × W)
      → ((c : C) (v : V) → r.0 ≡ ok c → Made g c v)
      → keep_client lib env nacos_config servers g r ≡ runs h
      → Opened g h
  keep_client-Opened g h servers (err e, w) m k = ground arith
  keep_client-Opened g h servers (ok c, w) m k =
      keep_server-Opened g h c (lib.new_nacos_server servers c w) (λ v. m c v refl) k

  open_with-Opened :
      (g h : Setup C V W) (p : ClientParam A) (o : Option ClientSettings) (servers : List A)
      → lib.unmarshal nacos_config ≡ ok p
      → p.client_config ≡ o
      → p.server_configs ≡ servers
      → open_with lib env nacos_config o servers g ≡ runs h
      → Opened g h
  open_with-Opened g h p none servers e f l k = ground arith
  open_with-Opened g h p (some s) [] e f l k = ground arith
  open_with-Opened g h p (some s) (a ∷ servers) e f l k =
      keep_client-Opened g h (a ∷ servers) _
        (λ c v made. record {
          param = p;
          parsed = e;
          given = s;
          present = f;
          reachable = λ gone. ground arith;
          complete =
              complete_settings-IsComplete lib.is_windows lib.first_nanos lib.second_nanos
                env.server_name s;
          client =
              ap (λ x. (lib.new_config_client (settings lib env nacos_config s) x g.world).0) l
              ∙ made;
        })
        k

  open_parsed-Opened :
      (g h : Setup C V W) (r : Result (ClientParam A))
      → lib.unmarshal nacos_config ≡ r
      → open_parsed lib env nacos_config r g ≡ runs h
      → Opened g h
  open_parsed-Opened g h (err e) f k = ground arith
  open_parsed-Opened g h (ok p) f k =
      open_with-Opened g h p p.client_config p.server_configs f refl refl k

  inner_or_exit-runs :
      (o : Option (C × V)) (h i : Setup C V W) (c : C × V)
      → inner_or_exit lib env nacos_config o h ≡ runs (c, i)
      → (o ≡ some c) × (h ≡ i)
  inner_or_exit-runs none h i c k = ground arith
  inner_or_exit-runs (some d) h i c k =
      (ap (λ q. some q.0) (runs_inj k), ap (λ q. q.1) (runs_inj k))

  -- A call of GetNacosClient, when it is known whether the function given to `one` has run
  abbrev call : Bool → Setup C V W → Process ((C × V) × Setup C V W)
  call once g =
      and_then (if once then runs g else open_nacos lib env nacos_config g)
        (λ h. inner_or_exit lib env nacos_config h.inner_nacos_client h)

  abbrev MadeFrom : Setup C V W → Option (C × V) → Type 0
  MadeFrom g none = Unit
  MadeFrom g (some (c, v)) = Made g c v

  call_again :
      (h : Setup C V W) (c : C × V)
      → h.once ≡ true
      → h.inner_nacos_client ≡ some c
      → get_nacos_client lib env nacos_config h ≡ runs (c, h)
  unfolding get_nacos_client
  call_again h c e f = ap (λ b. call b h) e ∙ ap (λ o. inner_or_exit lib env nacos_config o h) f

  -- When the first call of GetNacosClient returns, the environment held a configuration with at least
  -- one server, and the client was made from its settings after they were completed: nothing is
  -- loaded from the cache, updates may be empty, the application is the service, the beat interval
  -- and the timeout are not zero, and the directories are named but perhaps on Windows. From then on
  -- every call returns the same client and changes nothing.
  pub get_nacos_client-Ready :
      (g h : Setup C V W) (c : C) (v : V)
      → g.once ≡ false
      → get_nacos_client lib env nacos_config g ≡ runs ((c, v), h)
      → Made g c v × (get_nacos_client lib env nacos_config h ≡ runs ((c, v), h))
  unfolding get_nacos_client open_nacos
  get_nacos_client-Ready g h c v e k =
      let parsed = open_parsed lib env nacos_config (lib.unmarshal nacos_config) g in
      let (i, opened, l) = and_then-eq-runs parsed _ (sym (ap (λ b. call b g) e) ∙ k) in
      let (same, stays) = inner_or_exit-runs i.inner_nacos_client i h (c, v) l in
      let (done, (d, u, held, made)) =
        open_parsed-Opened g i (lib.unmarshal nacos_config) refl opened in
      (
        subst (MadeFrom g) (sym held ∙ same) made,
        subst (λ x. get_nacos_client lib env nacos_config x ≡ runs ((c, v), x)) stays
            (call_again i (c, v) done same),
      )
