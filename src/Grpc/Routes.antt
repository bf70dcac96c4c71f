-- ===== src/Grpc/Routes.antt =====
-- Every connection in the map of connections leads to a target of the service under whose name it
-- stands, whatever the callers and the configuration do.
use panda_go.Prelude.{
  ◌≡◌, refl, sym, subst, ◌∙◌, none, some, List, [], ◌∷◌, ◌++◌, ◌⊎◌, inl, inr, arith, ==_iff, ◌==◌,
  nat_eq, list_eq, if◌then◌else◌, Bool-cases, Option-cases,
}
use panda_go.Go.Text.{GoString, is_empty}
use panda_go.Go.Map.{GoMap, load, store, load-store, load-delete}
use panda_go.Go.Error.{Result, ok, err}
use panda_go.Go.Outcome.{Outcome, returns, panics, ◌>>=◌}
use panda_go.K8s.{Entity, Cache}
use panda_go.Utils.Target.{dot, get_target}
use panda_go.Grpc.World.{
  Outside, World, get_service_namespace, set_service_name2conn_map, delete_by_service_keys,
  delete_keys, on_relation, apply_relation, set_service_namespace, get_conn_from_service_map,
}
use panda_go.Grpc.Dial.{
  with_cache, dial_target, discover, dial_discovered, dial_wrapper, keep_if_missing, keep_dialled,
  get_conn,
}

module _ {C W : Type 0} (outside : Outside C W) where
  -- The connection's target is one of the service.
  abbrev pub Routes : GoString → C → Type 0
  Routes name c =
      (ns : GoString) × ((outside.target c ≡ get_target name ns)
        ⊎ (outside.target c ≡ name ++ dot ++ ns))

  pub record Routed (m : GoMap GoString C) : Type 0 where
    pub routes : (name : GoString) (c : C) → load name m ≡ some c → Routes name c

  -- grpc.Dial gives a connection to the target that it is given.
  abbrev pub DialsTarget : Type 0
  DialsTarget = (t : GoString) (o : W) (c : C) → (outside.dial t o).0 ≡ ok c → outside.target c ≡ t

  pub store-Routed :
      (name : GoString) (c : C) (m : GoMap GoString C)
      → Routes name c
      → Routed m
      → Routed (store name c m)
  store-Routed name c m r h = record {
    routes = λ j d e. route j d (rw (load-store name j c m) at e);
  }
    where
      route :
          (j : GoString) (d : C) → (if name == j then some c else load j m) ≡ some d → Routes j d
      route j d e = elim (Bool-cases (name == j)) [
        | inl p ↦
            let same : c ≡ d = ground arith in
            subst (λ t. Routes t d) ((==_iff name j).0 p) (subst (λ t. Routes name t) same r)
        | inr p ↦ h.routes j d (rw p at e)
      ]

  delete_keys-Routed :
      (ks : List GoString) (m : GoMap GoString C) → Routed m → Routed (delete_keys ks m)
  unfolding delete_keys
  delete_keys-Routed [] m h = h
  delete_keys-Routed (k ∷ ks) m h =
      delete_keys-Routed ks _
        (record { routes = λ j c e. h.routes j c (ground (arith, load-delete k j m, e)) })

module _ {C X W : Type 0} (outside : Outside C W) (key : GoString) where
  abbrev pub IsRouted : World C X W → Type 0
  IsRouted w = Routed outside w.service_name2conn_map

  -- If every connection of the map leads to its service, every one still does after the handler of the
  -- configuration has run, whatever text it got.
  pub on_relation-Routed :
      (value : GoString) (w : World C X W) → IsRouted w → IsRouted (on_relation outside value w)
  unfolding on_relation apply_relation delete_by_service_keys
  on_relation-Routed [] w h = h
  on_relation-Routed (c ∷ value) w h = delete_keys-Routed outside _ _ h

  with_cache-conns :
      (w : World C X W) (o : Outcome (Entity × Cache)) (e : Entity) (w' : World C X W)
      → with_cache w o ≡ returns (e, w')
      → w'.service_name2conn_map ≡ w.service_name2conn_map
  with_cache-conns w panics e w' h = cc
  with_cache-conns w (returns (e0, cache)) e w' h = ground arith

  discover-conns :
      (name origin : GoString) (w : World C X W) (e : Entity) (w' : World C X W)
      → discover outside key name origin w ≡ returns (e, w')
      → w'.service_name2conn_map ≡ w.service_name2conn_map
  unfolding discover
  discover-conns name origin w e w' h = with_cache-conns w _ e w' h

  dial_target-Routes :
      DialsTarget outside
      → (name ns : GoString) (w : World C X W) (c : C)
      → (dial_target outside key name ns w).0 ≡ ok c
      → Routes outside name c
  unfolding dial_target
  dial_target-Routes law name ns w c h = (ns, inl (law _ w.outside c h))

  -- What dialling leaves: the map of connections as it was, and a connection to the service.
  pub record Dialled (name : GoString) (w : World C X W) (r : Result C × World C X W) : Type 0 where
    pub conns : r.1.service_name2conn_map ≡ w.service_name2conn_map
    pub routes : (c : C) → r.0 ≡ ok c → Routes outside name c

  dial_discovered-Dialled :
      DialsTarget outside
      → (name : GoString) (e : Entity) (w : World C X W)
      → Dialled name w (dial_discovered outside key name e w)
  unfolding dial_discovered
  dial_discovered-Dialled law name (b, ns, some e) w = record { conns = refl; routes = λ c h. cc }
  dial_discovered-Dialled law name (b, ns, none) w = record {
    conns = unfold dial_target set_service_namespace in refl;
    routes = λ c h. dial_target-Routes law name ns _ c h;
  }

  discovered_dial :
      DialsTarget outside
      → (name : GoString) (w : World C X W) (o : Outcome (Entity × World C X W))
        (r : Result C × World C X W)
      → ((e : Entity) (v : World C X W)
          → o ≡ returns (e, v)
          → v.service_name2conn_map ≡ w.service_name2conn_map)
      → (o >>= λ p. returns (dial_discovered outside key name p.0 p.1)) ≡ returns r
      → Dialled name w r
  discovered_dial law name w panics r kept h = cc
  discovered_dial law name w (returns (e, v)) r kept h =
      let d = dial_discovered-Dialled law name e v in
      let same : dial_discovered outside key name e v ≡ r = cc in
      subst (Dialled name w) same (record { conns = d.conns ∙ kept e v refl; routes = d.routes })

  pub dial_wrapper-Dialled :
      DialsTarget outside
      → (name : GoString) (w : World C X W) (r : Result C × World C X W)
      → dial_wrapper outside key name w ≡ returns r
      → Dialled name w r
  unfolding dial_wrapper
  dial_wrapper-Dialled law name w r h =
      elim (Bool-cases (is_empty (get_service_namespace name w))) [
        | inl p ↦
            discovered_dial law name w (discover outside key name [] w) r
              (λ e v k. discover-conns name [] w e v k) (rw (p, dial_wrapper) at h)
        | inr p ↦
            let same : dial_target outside key name (get_service_namespace name w) w ≡ r =
              ground arith in
            subst (Dialled name w) same (record {
              conns = unfold dial_target in refl;
              routes = λ c k. dial_target-Routes law name _ w c k;
            })
      ]

  -- What GetConn leaves: the map routed, and a connection to the service.
  pub record Connected (name : GoString) (r : Result C × World C X W) : Type 0 where
    pub routed : IsRouted r.1
    pub routes : (c : C) → r.0 ≡ ok c → Routes outside name c

  keep_if_missing-Routed :
      (name : GoString) (c : C) (w : World C X W)
      → Routes outside name c
      → IsRouted w
      → IsRouted (keep_if_missing outside key name c w)
  unfolding get_conn_from_service_map set_service_name2conn_map
  keep_if_missing-Routed name c w r h = elim (Option-cases (load name w.service_name2conn_map)) [
    | inl e ↦ rw (e, keep_if_missing) (store-Routed outside name c w.service_name2conn_map r h)
    | inr (d, e) ↦ rw (e, keep_if_missing) h
  ]

  keep_dialled-Connected :
      (name : GoString) (w : World C X W) (r : Result C × World C X W)
      → IsRouted w
      → Dialled name w r
      → Connected name (keep_dialled outside key name r)
  unfolding keep_dialled
  keep_dialled-Connected name w (err e, v) h d = record {
    routed = subst (Routed outside) (sym d.conns) h;
    routes = λ c k. cc;
  }
  keep_dialled-Connected name w (ok c, v) h d = record {
    routed =
        keep_if_missing-Routed name c v (d.routes c refl) (subst (Routed outside) (sym d.conns) h);
    routes = λ c' k. d.routes c' k;
  }

  Connected-dial :
      DialsTarget outside
      → (name : GoString) (w : World C X W) (o : Outcome (Result C × World C X W))
        (r : Result C × World C X W)
      → IsRouted w
      → ((q : Result C × World C X W) → o ≡ returns q → Dialled name w q)
      → (o >>= λ q. returns (keep_dialled outside key name q)) ≡ returns r
      → Connected name r
  Connected-dial law name w panics r h dialled k = cc
  Connected-dial law name w (returns q) r h dialled k =
      let same : keep_dialled outside key name q ≡ r = cc in
      subst (Connected name) same (keep_dialled-Connected name w q h (dialled q refl))

  -- If a dialled connection leads to its target and every connection of the map leads to its service,
  -- then, when GetConn returns, every connection of the map still does, and the connection that GetConn
  -- returns leads to the service asked for.
  pub get_conn-Connected :
      DialsTarget outside
      → (name : GoString) (w : World C X W) (r : Result C × World C X W) → IsRouted w
      → get_conn outside key name w ≡ returns r
      → Connected name r
  unfolding get_conn get_conn_from_service_map
  get_conn-Connected law name w r h k = elim (Option-cases (load name w.service_name2conn_map)) [
    | inl e ↦
        Connected-dial law name w (dial_wrapper outside key name w) r h
          (dial_wrapper-Dialled law name w) (rw (e, get_conn) at k)
    | inr (c, e) ↦
        let same : ◌≡◌ {A = Result C × World C X W} (ok c, w) r = ground arith in
        subst (Connected name) same
          (record { routed = h; routes = λ d q. h.routes name d (e ∙ ground arith) })
  ]
