-- ===== src/Grpc/Attempts.antt =====
-- The retry of the client: how often it calls, and that it keeps the map routed.
use panda_go.Prelude.{
  ℕ, zero, suc, ◌+◌, ◌≤◌, Bool, true, false, ◌≡◌, refl, ap, sym, subst, ◌∙◌, none, some, [], ◌∷◌,
  ◌++◌, inl, inr, arith, length, length-append, ◌==◌, Bool-cases,
}
use panda_go.Go.Text.{GoString}
use panda_go.Go.Error.{MaybeError, Result, ok, err}
use panda_go.Go.Outcome.{Outcome, returns, panics}
use panda_go.K8s.{Entity, Cache}
use panda_go.Utils.ErrorCode.{ErrorReader, parse_rpc_error_code, code_unavailable, int_eq}
use panda_go.Utils.Target.{get_svc_name_and_ns_from_target, parse_target_sound}
use panda_go.Grpc.World.{Outside, World, set_service_name2conn_map, set_service_namespace}
use panda_go.Grpc.Dial.{with_cache, dial_target, discover}
use panda_go.Grpc.Retry.{
  Invoker, Round, leave, again, max_retries, invoke, remember, redialled, redial, redial_found,
  redirect, settle, round, retry_loop, retry_grpc_unary_client_interceptor,
}
use panda_go.Grpc.Routes.{Routed, store-Routed}

module _ {C X W : Type 0} (outside : Outside C W) (key : GoString) (reader : ErrorReader)
    (invoker : Invoker C W) where
  abbrev world_of : Round C X W → World C X W
  world_of (leave e w) = w
  world_of (again c b w) = w

  -- Redialling makes no call and leaves the map of connections.
  record Quiet (w v : World C X W) : Type 0 where
    conns : v.service_name2conn_map ≡ w.service_name2conn_map
    invoked : v.invoked ≡ w.invoked

  redialled-Quiet :
      (w v : World C X W) (r : Result C)
      → Quiet w v
      → Quiet w (world_of (redialled outside key reader invoker (r, v)))
  redialled-Quiet w v (ok c) q = q
  redialled-Quiet w v (err e) q = q

  redial-Quiet :
      (name : GoString) (e : Entity) (w : World C X W)
      → Quiet w (world_of (redial outside key reader invoker name e w))
  unfolding redial dial_target set_service_namespace
  redial-Quiet name (b, ns, some e) w = record { conns = refl; invoked = refl }
  redial-Quiet name (b, ns, none) w =
      redialled-Quiet w _ _ (record { conns = refl; invoked = refl })

  found_Quiet :
      (name : GoString) (w : World C X W) (o : Outcome (Entity × Cache)) (r : Round C X W)
      → redial_found outside key reader invoker name (with_cache w o) ≡ returns r
      → Quiet w (world_of r)
  found_Quiet name w panics r h = cc
  found_Quiet name w (returns (e, cache)) r h =
      let v : World C X W = record w { service2namespaces_mp = cache } in
      let q = redial-Quiet name e v in
      let same : redial outside key reader invoker name e v ≡ r = cc in
      subst (λ t. Quiet w (world_of t)) same (record { conns = q.conns; invoked = q.invoked })

  redirect-Quiet :
      (cc0 : C) (w : World C X W) (r : Round C X W)
      → redirect outside key reader invoker cc0 w ≡ returns r
      → Quiet w (world_of r)
  unfolding redirect discover
  redirect-Quiet cc0 w r h = go (get_svc_name_and_ns_from_target (outside.target cc0)) refl
    where
      go :
          (t : Result (GoString × GoString))
          → get_svc_name_and_ns_from_target (outside.target cc0) ≡ t
          → Quiet w (world_of r)
      go (err e) k =
          let left : returns (leave (some e) w) ≡ returns r = rw (k, redirect) at h in
          let same : leave (some e) w ≡ r = cc in
          subst (λ t. Quiet w (world_of t)) same (record { conns = refl; invoked = refl })
      go (ok (name, ns)) k = found_Quiet name w _ r (rw (k, redirect) at h)

  remember-Routed :
      (cc0 : C) (w : World C X W)
      → Routed outside w.service_name2conn_map
      → Routed outside (remember outside key reader invoker cc0 w).service_name2conn_map
  unfolding remember set_service_name2conn_map
  remember-Routed cc0 w h = go (get_svc_name_and_ns_from_target (outside.target cc0)) refl
    where
      go :
          (t : Result (GoString × GoString))
          → get_svc_name_and_ns_from_target (outside.target cc0) ≡ t
          → Routed outside (remember outside key reader invoker cc0 w).service_name2conn_map
      go (err e) k = rw (k, remember) h
      go (ok (name, ns)) k =
          rw (k, remember)
            (store-Routed outside name cc0 w.service_name2conn_map
              (ns, (parse_target_sound (outside.target cc0) name ns k).0) h)

  remember-invoked :
      (cc0 : C) (w : World C X W) → (remember outside key reader invoker cc0 w).invoked ≡ w.invoked
  unfolding remember set_service_name2conn_map
  remember-invoked cc0 w = ground arith

  -- What one round leaves: one more call, on its connection, and the map routed if it was.
  record OneCall (cc0 : C) (w : World C X W) (r : Round C X W) : Type 0 where
    invoked : (world_of r).invoked ≡ w.invoked ++ cc0 ∷ []
    routed :
        Routed outside w.service_name2conn_map → Routed outside (world_of r).service_name2conn_map

  settle-OneCall :
      (cc0 : C) (change : Bool) (e : MaybeError) (w v : World C X W) (r : Round C X W)
      → v.service_name2conn_map ≡ w.service_name2conn_map
      → v.invoked ≡ w.invoked ++ cc0 ∷ []
      → settle outside key reader invoker cc0 change (e, v) ≡ returns r
      → OneCall cc0 w r
  unfolding settle
  settle-OneCall cc0 true none w v r conns calls h =
      let same : leave none (remember outside key reader invoker cc0 v) ≡ r = cc in
      subst (OneCall cc0 w) same (record {
        invoked = remember-invoked cc0 v ∙ calls;
        routed = λ k. remember-Routed cc0 v (subst (Routed outside) (sym conns) k);
      })
  settle-OneCall cc0 false none w v r conns calls h =
      let same : leave none v ≡ r = cc in
      subst (OneCall cc0 w) same
        (record { invoked = calls; routed = subst (Routed outside) (sym conns) })
  settle-OneCall cc0 change (some e) w v r conns calls h =
      elim (Bool-cases (parse_rpc_error_code reader e == code_unavailable)) [
        | inl p ↦
            let q = redirect-Quiet cc0 v r (rw (p, settle) at h) in
            record {
              invoked = q.invoked ∙ calls;
              routed = subst (Routed outside) (sym (q.conns ∙ conns));
            }
        | inr p ↦
            let back : returns (again cc0 change v) ≡ returns r = rw (p, settle) at h in
            let same : again cc0 change v ≡ r = cc in
            subst (OneCall cc0 w) same
              (record { invoked = calls; routed = subst (Routed outside) (sym conns) })
      ]

  round-OneCall :
      (cc0 : C) (change : Bool) (w : World C X W) (r : Round C X W)
      → round outside key reader invoker cc0 change w ≡ returns r
      → OneCall cc0 w r
  unfolding round invoke
  round-OneCall cc0 change w r h = settle-OneCall cc0 change _ w _ r refl refl h

  -- What a run of at most `n` rounds leaves.
  pub record Ran (n : ℕ) (w : World C X W) (r : MaybeError × World C X W) : Type 0 where
    pub bounded : length r.1.invoked ≤ length w.invoked + n
    pub routed : Routed outside w.service_name2conn_map → Routed outside r.1.service_name2conn_map

  retry_loop-Ran :
      (n : ℕ) (cc0 : C) (change : Bool) (w : World C X W) (r : MaybeError × World C X W)
      → retry_loop outside key reader invoker n cc0 change w ≡ returns r
      → Ran n w r
  unfolding retry_loop
  retry_loop-Ran zero cc0 change w r h =
      let same : ◌≡◌ {A = MaybeError × World C X W} (some max_retries, w) r = cc in
      subst (Ran zero w) same (record { bounded = omega arith; routed = λ k. k })
  retry_loop-Ran (suc n) cc0 change w r h =
      go (round outside key reader invoker cc0 change w) refl (λ c b v. retry_loop-Ran n c b v r) h
    where
      go :
          (o : Outcome (Round C X W))
          → round outside key reader invoker cc0 change w ≡ o
          → ((c : C) (b : Bool) (v : World C X W)
              → retry_loop outside key reader invoker n c b v ≡ returns r
              → Ran n v r)
          → retry_loop outside key reader invoker (suc n) cc0 change w ≡ returns r
          → Ran (suc n) w r
      go panics e rec k =
          let stop : ◌≡◌ {A = Outcome (MaybeError × World C X W)} panics (returns r) =
            rw (e, retry_loop) at k in
          cc
      go (returns (leave x v)) e rec k =
          let one = round-OneCall cc0 change w (leave x v) e in
          let back : returns (x, v) ≡ returns r = rw (e, retry_loop) at k in
          let same : ◌≡◌ {A = MaybeError × World C X W} (x, v) r = cc in
          subst (Ran (suc n) w) same (record {
            bounded =
                omega (arith, ap (λ l. length l) one.invoked, length-append w.invoked (cc0 ∷ []));
            routed = one.routed;
          })
      go (returns (again c b v)) e rec k =
          let one = round-OneCall cc0 change w (again c b v) e in
          let rest = rec c b v (rw (e, retry_loop) at k) in
          record {
            bounded = omega (
              arith,
              rest.bounded,
              ap (λ l. length l) one.invoked,
              length-append w.invoked (cc0 ∷ []),
            );
            routed = λ q. rest.routed (one.routed q);
          }

  -- When the interceptor returns, it has made at most three calls, and if every connection of the map
  -- led to its service before, every one does so after.
  pub interceptor-Ran :
      (cc0 : C) (w : World C X W) (r : MaybeError × World C X W)
      → retry_grpc_unary_client_interceptor outside key reader invoker cc0 w ≡ returns r
      → Ran 3 w r
  unfolding retry_grpc_unary_client_interceptor
  interceptor-Ran cc0 w r h = retry_loop-Ran 3 cc0 false w r h
