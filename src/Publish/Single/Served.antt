-- ===== src/Publish/Single/Served.antt =====
-- What a subscriber of publish/v1/main.go is sent.
use panda_go.Prelude.{
  ℕ, ◌≡◌, ◌⊎◌, inl, inr, refl, none, some, Option, List, [], ◌∷◌, ◌++◌, append_assoc, arith, subst,
  sym, ap, ◌∙◌,
}
use panda_go.Go.Error.{MaybeError}
use panda_go.Go.Outcome.{returns, ◌>>=◌, >>=-eq-returns, returns_inj}
use panda_go.Go.Chan.{
  Chan, Received, received, drained, waits, receive, try_send, close_chan, make_chan,
}
use panda_go.Publish.Single.{SingleServer, offering, put_chan, enter, leave, publish_turn}
use panda_go.Publish.Single.Serving.{
  Session, Choice, reads, cancels, idles, end_session, take_received, send_received, serve_received,
  serve_session, start_session, Around, serves, offers, happen, happen_all,
}

-- The first list is the second with elements left out.
abbrev pub Within : {A : Type 0} → List A → List A → Type 0
Within [] ys = Unit
Within (x ∷ xs) [] = ⊥
Within (x ∷ xs) (y ∷ ys) = ((x ≡ y) × Within xs ys) ⊎ Within (x ∷ xs) ys

module _ {A : Type 0} where
  Within-cons : (xs ys : List A) (y : A) → Within xs ys → Within xs (y ∷ ys)
  Within-cons [] ys y h = tt
  Within-cons (x ∷ xs) ys y h = inr h

  tail_Within : (x : A) (xs ys : List A) → Within (x ∷ xs) ys → Within xs ys
  tail_Within x xs [] h = absurd h
  tail_Within x xs (y ∷ ys) (inl h) = Within-cons xs ys y h.1
  tail_Within x xs (y ∷ ys) (inr h) = Within-cons xs ys y (tail_Within x xs ys h)

  middle_Within : (ws xs ys : List A) (x : A) → Within (ws ++ x ∷ xs) ys → Within (ws ++ xs) ys
  middle_Within [] xs ys x h = tail_Within x xs ys h
  middle_Within (w ∷ ws) xs [] x h = absurd h
  middle_Within (w ∷ ws) xs (y ∷ ys) x (inl h) = inl (h.0, middle_Within ws xs ys x h.1)
  middle_Within (w ∷ ws) xs (y ∷ ys) x (inr h) = inr (middle_Within (w ∷ ws) xs ys x h)

  prefix_Within : (ws xs ys : List A) → Within (ws ++ xs) ys → Within ws ys
  prefix_Within [] xs ys h = tt
  prefix_Within (w ∷ ws) xs [] h = absurd h
  prefix_Within (w ∷ ws) xs (y ∷ ys) (inl h) = inl (h.0, prefix_Within ws xs ys h.1)
  prefix_Within (w ∷ ws) xs (y ∷ ys) (inr h) = inr (prefix_Within (w ∷ ws) xs ys h)

  snoc_Within : (xs ys : List A) (a : A) → Within xs ys → Within (xs ++ a ∷ []) (ys ++ a ∷ [])
  snoc_Within [] [] a h = inl (refl, tt)
  snoc_Within [] (y ∷ ys) a h = inr (snoc_Within [] ys a tt)
  snoc_Within (x ∷ xs) [] a h = absurd h
  snoc_Within (x ∷ xs) (y ∷ ys) a (inl h) = inl (h.0, snoc_Within xs ys a h.1)
  snoc_Within (x ∷ xs) (y ∷ ys) a (inr h) = inr (snoc_Within (x ∷ xs) ys a h)

  later_Within : (xs ys zs : List A) → Within xs ys → Within xs (ys ++ zs)
  later_Within [] ys zs h = tt
  later_Within (x ∷ xs) [] zs h = absurd h
  later_Within (x ∷ xs) (y ∷ ys) zs (inl h) = inl (h.0, later_Within xs ys zs h.1)
  later_Within (x ∷ xs) (y ∷ ys) zs (inr h) = inr (later_Within (x ∷ xs) ys zs h)

module _ {M : Type 0} where
  -- What the subscriber has been sent, and what waits for it
  abbrev held : Session M → List M
  held s = s.written ++ (s.server.channels s.channel).buffer

  put_chan_self : (ch : ℕ) (c : Chan M) (f : ℕ → Chan M) → put_chan ch c f ch ≡ c
  unfolding put_chan
  put_chan_self ch c f = ground arith

  close_chan-buffer : (c d : Chan M) → close_chan c ≡ returns d → d.buffer ≡ c.buffer
  unfolding close_chan
  close_chan-buffer c d h = ground arith

  try_send-buffer :
      (msg : M) (c d : Chan M)
      → try_send msg c ≡ returns d
      → (d.buffer ≡ c.buffer ++ msg ∷ []) ⊎ (d.buffer ≡ c.buffer)
  unfolding try_send
  try_send-buffer msg c d h = ground arith

  end_session-held :
      (e : MaybeError) (s t : Session M) → end_session e s ≡ returns t → held t ≡ held s
  unfolding leave
  end_session-held e s t h =
      let (u, left, f) = >>=-eq-returns (leave s.channel s.server) _ h in
      let (c, closed, g) = >>=-eq-returns (close_chan (s.server.channels s.channel)) _ left in
      sym (ap held (returns_inj f))
      ∙ ap (λ (x : SingleServer M). s.written ++ (x.channels s.channel).buffer)
          (sym (returns_inj g))
      ∙ ap (λ (d : Chan M). s.written ++ d.buffer) (put_chan_self s.channel c s.server.channels)
      ∙ ap (λ b. s.written ++ b) (close_chan-buffer (s.server.channels s.channel) c closed)

  -- What was offered before still covers what is held.
  abbrev Covered : List M → Session M → Type 0
  Covered seen s = Within (held s) seen

  receive-buffer : (c d : Chan M) (msg : M) → receive c ≡ received msg d → c.buffer ≡ msg ∷ d.buffer
  unfolding receive
  receive-buffer c d msg h = ground arith

  send_received-Covered :
      (seen : List M) (e : MaybeError) (msg : M) (c : Chan M) (s t : Session M)
      → (s.server.channels s.channel).buffer ≡ msg ∷ c.buffer
      → Covered seen s
      → send_received e msg (take_received c s) ≡ returns t
      → Covered seen t
  send_received-Covered seen none msg c s t b h k = subst (Covered seen) (returns_inj k) (
      subst (λ l. Within l seen)
        (ap (λ l. s.written ++ l) b
          ∙ sym (append_assoc s.written (msg ∷ []) c.buffer)
          ∙ ap (λ (d : Chan M). (s.written ++ msg ∷ []) ++ d.buffer)
              (sym (put_chan_self s.channel c s.server.channels)))
        h)
  send_received-Covered seen (some e) msg c s t b h k =
      subst (λ l. Within l seen) (sym (end_session-held (some e) (take_received c s) t k))
        (subst (λ (d : Chan M). Within (s.written ++ d.buffer) seen)
          (sym (put_chan_self s.channel c s.server.channels))
          (middle_Within s.written c.buffer seen msg
            (subst (λ l. Within (s.written ++ l) seen) b h)))

  serve_received-Covered :
      (seen : List M) (send : M → MaybeError) (r : Received M) (s t : Session M)
      → receive (s.server.channels s.channel) ≡ r
      → Covered seen s
      → serve_received send r s ≡ returns t
      → Covered seen t
  serve_received-Covered seen send (received msg c) s t e h k =
      send_received-Covered seen (send msg) msg c s t (receive-buffer _ c msg e) h k
  serve_received-Covered seen send drained s t e h k =
      subst (λ l. Within l seen) (sym (end_session-held _ s t k)) h
  serve_received-Covered seen send waits s t e h k = subst (Covered seen) (returns_inj k) h

  serve_session-Covered :
      (seen : List M) (send : M → MaybeError) (choice : Choice) (o : Option MaybeError)
      (s t : Session M)
      → Covered seen s
      → serve_session send choice o s ≡ returns t
      → Covered seen t
  unfolding serve_session
  serve_session-Covered seen send choice (some e) s t h k = subst (Covered seen) (returns_inj k) h
  serve_session-Covered seen send reads none s t h k =
      serve_received-Covered seen send (receive (s.server.channels s.channel)) s t refl h k
  serve_session-Covered seen send cancels none s t h k =
      subst (λ l. Within l seen) (sym (end_session-held none s t k)) h
  serve_session-Covered seen send idles none s t h k = subst (Covered seen) (returns_inj k) h

  sent_Within :
      (seen : List M) (msg : M) (ws xs ys : List M)
      → Within (ws ++ xs) seen
      → (ys ≡ xs ++ msg ∷ []) ⊎ (ys ≡ xs)
      → Within (ws ++ ys) (seen ++ msg ∷ [])
  sent_Within seen msg ws xs ys h (inl e) =
      subst (λ l. Within l (seen ++ msg ∷ []))
        (append_assoc ws xs (msg ∷ []) ∙ ap (λ l. ws ++ l) (sym e))
        (snoc_Within (ws ++ xs) seen msg h)
  sent_Within seen msg ws xs ys h (inr e) =
      subst (λ l. Within (ws ++ l) (seen ++ msg ∷ [])) (sym e)
        (later_Within (ws ++ xs) seen (msg ∷ []) h)

  publish_turn-Covered :
      (seen : List M) (msg : M) (s t : Session M)
      → Covered seen s
      → (publish_turn msg (offering s.channel [], s.server)
          >>= (λ r. returns (record s { server = r.1 })))
        ≡ returns t
      → Covered (seen ++ msg ∷ []) t
  unfolding publish_turn
  publish_turn-Covered seen msg s t h k =
      let (r, turned, f) =
        >>=-eq-returns (publish_turn msg (offering s.channel [], s.server)) _ k in
      let (c, tried, g) = >>=-eq-returns (try_send msg (s.server.channels s.channel)) _ turned in
      subst (Covered (seen ++ msg ∷ [])) (returns_inj f) (
        subst (λ r. Covered (seen ++ msg ∷ []) (record s { server = r.1 })) (returns_inj g)
          (subst (λ (d : Chan M). Within (s.written ++ d.buffer) (seen ++ msg ∷ []))
            (sym (put_chan_self s.channel c s.server.channels))
            (sent_Within seen msg s.written (s.server.channels s.channel).buffer c.buffer h
              (try_send-buffer msg (s.server.channels s.channel) c tried))))

  -- The messages of the turns of Publish
  abbrev pub offered_messages : List (Around M) → List M
  offered_messages [] = []
  offered_messages (serves choice ∷ rest) = offered_messages rest
  offered_messages (offers msg ∷ rest) = msg ∷ offered_messages rest

  happen_all-Covered :
      (send : M → MaybeError) (seen : List M) (events : List (Around M)) (s t : Session M)
      → Covered seen s
      → happen_all send events s ≡ returns t
      → Covered (seen ++ offered_messages events) t
  unfolding happen_all
  happen_all-Covered send seen [] s t h k =
      subst (Covered (seen ++ [])) (returns_inj k) (later_Within (held s) seen [] h)
  happen_all-Covered send seen (serves choice ∷ rest) s t h k =
      let (u, e, f) = >>=-eq-returns (serve_session send choice s.result s) _ k in
      happen_all-Covered send seen rest u t
        (serve_session-Covered seen send choice s.result s u h e) f
  happen_all-Covered send seen (offers msg ∷ rest) s t h k =
      let (u, e, f) = >>=-eq-returns (happen send (offers msg) s) _ k in
      subst (λ l. Covered l t) (append_assoc seen (msg ∷ []) (offered_messages rest))
        (happen_all-Covered send (seen ++ msg ∷ []) rest u t (publish_turn-Covered seen msg s u h e)
          f)

  -- However the turns of a Subscribe and of the calls of Publish at its channel follow each other, as
  -- long as none panics: what the stream has been sent are messages of those turns, in the order of the
  -- turns, each at most once for a turn.
  pub happen_all-Within :
      (send : M → MaybeError) (events : List (Around M)) (s : SingleServer M) (t : Session M)
      → happen_all send events (start_session s) ≡ returns t
      → Within t.written (offered_messages events)
  unfolding enter
  happen_all-Within send events s t h =
      prefix_Within t.written (t.server.channels t.channel).buffer (offered_messages events) (
        happen_all-Covered send [] events (start_session s) t
          (subst (λ (d : Chan M). Within d.buffer [])
            (sym (put_chan_self s.next (make_chan 1) s.channels)) tt)
          h)
