-- ===== src/Services/Answers.antt =====
-- What the handlers answer, and whom they ask.
use panda_go.Prelude.{
  ◌≡◌, ◌⊎◌, inl, inr, refl, Bool, none, some, Option, [], ◌∷◌, subst, sym, ap, ◌∙◌, if◌then◌else◌,
}
use panda_go.Prelude.{nat_eq, list_eq, list_beq}
use panda_go.Utils.Kebab.{camel_to_kebab_case, kebab_loop, is_upper}
use panda_go.Go.Text.{GoString, lit, to_lower, trim_suffix, has_suffix}
use panda_go.Go.Error.{MaybeError, Result, ok, err}
use panda_go.Go.Outcome.{returns, >>=-eq-returns, returns_inj}
use panda_go.Grpc.World.{Outside, World}
use panda_go.Grpc.Routes.{Routes, IsRouted, DialsTarget}
use panda_go.Grpc.Clients.{
  ClientKind, panda_auth_client, panda_account_client, client_kind, Client, create_client,
  create_client_wrapper, create_client-Serves, service_of,
}
use panda_go.Prelude.{true}
use panda_go.Services.{
  Written, hello_world, reply, hello_answered, with_auth, handle_test, demo_answered, with_account,
  say_hello, is_auth, is_account,
}

-- What is written for an answer of panda-auth
abbrev pub pages_of : Result GoString → Written
pages_of (ok r) = (200, reply r) ∷ (200, hello_world) ∷ []
pages_of (err e) = []

-- What is said for an answer of panda-account
abbrev pub text_of : Result GoString → GoString × MaybeError
text_of (ok r) = (r, none)
text_of (err e) = (e, none)

-- What CreateClientWrapper hands on of a client that CreateClient gave
handed_on :
    {C : Type 0} (implements : Client C → Bool) (o p : Option (Client C))
    → elim o [ none ↦ none | some c ↦ if implements c then some c else none ] ≡ p
    → ((c : Client C) → o ≡ some c → implements c ≡ true)
    → o ≡ p
handed_on implements none p h k = h
handed_on implements (some c) p h k = sym (ap (λ b. if b then some c else none) (k c refl)) ∙ h

auth_service : service_of (lit "PandaAuthClient") ≡ lit "panda-auth"
unfolding camel_to_kebab_case kebab_loop is_upper to_lower trim_suffix has_suffix list_beq lit
auth_service = refl

account_service : service_of (lit "PandaAccountClient") ≡ lit "panda-account"
unfolding camel_to_kebab_case kebab_loop is_upper to_lower trim_suffix has_suffix list_beq lit
account_service = refl

auth_kind : client_kind (lit "panda-auth") ≡ some panda_auth_client
unfolding client_kind list_beq lit
auth_kind = refl

account_kind : client_kind (lit "panda-account") ≡ some panda_account_client
unfolding client_kind list_beq lit
account_kind = refl

module _ {C X W : Type 0} (outside : Outside C W) (key : GoString) where
  -- A client that is created for a name is of the kind that its service has.
  kind_of_created :
      DialsTarget outside
      → (name service : GoString) (kind : ClientKind) (w v : World C X W) (client : Client C)
        (e : MaybeError)
      → IsRouted outside key w
      → service_of name ≡ service
      → client_kind service ≡ some kind
      → create_client outside key name w ≡ returns ((some client, e), v)
      → client.kind ≡ kind
  kind_of_created law name service kind w v client e routed s k h =
      let served = create_client-Serves outside key law name w v client e routed h in
      let same : some client.kind ≡ some kind = sym served.1 ∙ ap client_kind s ∙ k in cc

  -- What CreateClientWrapper returns is what CreateClient gives, for a name whose kind implements it.
  wrapped :
      DialsTarget outside
      → (implements : ClientKind → Bool) (name service : GoString) (kind : ClientKind)
        (w v : World C X W) (o : Option (Client C))
      → IsRouted outside key w
      → service_of name ≡ service
      → client_kind service ≡ some kind
      → implements kind ≡ true
      → create_client_wrapper outside key (λ c. implements c.kind) name w ≡ returns (o, v)
      → (e : MaybeError) × (create_client outside key name w ≡ returns ((o, e), v))
  unfolding create_client_wrapper
  wrapped law implements name service kind w v o routed s k i h =
      let (((p, e), u), made, given) = >>=-eq-returns (create_client outside key name w) _ h in
      let got =
        handed_on (λ c. implements c.kind) p o (ap (λ r. r.0) (returns_inj given))
          (λ c q.
            let kept = made ∙ ap (λ x. returns ((x, e), u)) q in
            ap implements (kind_of_created law name service kind w u c e routed s k kept) ∙ i) in
      let same : u ≡ v = ap (λ r. r.1) (returns_inj given) in
      (e, made ∙ ap (λ c. returns ((c, e), u)) got ∙ ap (λ x. returns ((o, e), x)) same)

  -- What a handler answers, by what CreateClient gives for the other service: without a client its own
  -- answer, and with one what follows from the answer of that service, over a connection that leads there.
  abbrev pub Answers :
      {R : Type 0}
      → (C → GoString → World C X W → Result GoString × World C X W)
      → GoString
      → GoString
      → GoString
      → R
      → (Result GoString → R)
      → World C X W
      → R × World C X W
      → Type 0
  Answers ask name service request own answered w (r, v) =
      ((e : MaybeError) × (create_client outside key name w ≡ returns ((none, e), v)) × (r ≡ own))
      ⊎ ((client : Client C) × (e : MaybeError) × (u : World C X W) × (create_client outside key
              name w
            ≡ returns ((some client, e), u))
          × Routes outside service client.conn
          × (r ≡ answered (ask client.conn request u).0)
          × (v ≡ (ask client.conn request u).1))

  module _ (ask : C → GoString → World C X W → Result GoString × World C X W) where
    hello_answered-pages :
        (q : Result GoString × World C X W)
        → ((hello_answered outside key ask q).0 ≡ pages_of q.0)
          × ((hello_answered outside key ask q).1 ≡ q.1)
    hello_answered-pages (ok r, w) = (refl, refl)
    hello_answered-pages (err e, w) = (refl, refl)

    demo_answered-text :
        (q : Result GoString × World C X W)
        → ((demo_answered outside key ask q).0 ≡ text_of q.0)
          × ((demo_answered outside key ask q).1 ≡ q.1)
    demo_answered-text (ok r, w) = (refl, refl)
    demo_answered-text (err e, w) = (refl, refl)

    with_auth-Answers :
        DialsTarget outside
        → (w : World C X W) (o : Option (Client C)) (e : MaybeError) (u : World C X W)
        → IsRouted outside key w
        → create_client outside key (lit "PandaAuthClient") w ≡ returns ((o, e), u)
        → Answers ask
            (lit "PandaAuthClient")
            (lit "panda-auth")
            (lit "11")
            ((200, hello_world) ∷ [])
            pages_of
            w
            (with_auth outside key ask o u)
    with_auth-Answers law w none e u routed h = inl (e, h, refl)
    with_auth-Answers law w (some client) e u routed h =
        let served = create_client-Serves outside key law _ w u client e routed h in
        inr (
          client,
          e,
          u,
          h,
          subst (λ s. Routes outside s client.conn) auth_service served.2,
          (hello_answered-pages (ask client.conn (lit "11") u)).0,
          (hello_answered-pages (ask client.conn (lit "11") u)).1,
        )

    with_account-Answers :
        DialsTarget outside
        → (w : World C X W) (o : Option (Client C)) (e : MaybeError) (u : World C X W)
        → IsRouted outside key w
        → create_client outside key (lit "PandaAccountClient") w ≡ returns ((o, e), u)
        → Answers ask
            (lit "PandaAccountClient")
            (lit "panda-account")
            (lit "123231")
            (lit "lgxsdjkl", none)
            text_of
            w
            (with_account outside key ask o u)
    with_account-Answers law w none e u routed h = inl (e, h, refl)
    with_account-Answers law w (some client) e u routed h =
        let served = create_client-Serves outside key law _ w u client e routed h in
        inr (
          client,
          e,
          u,
          h,
          subst (λ s. Routes outside s client.conn) account_service served.2,
          (demo_answered-text (ask client.conn (lit "123231") u)).0,
          (demo_answered-text (ask client.conn (lit "123231") u)).1,
        )

    -- If a dialled connection leads to its target and every connection of the map leads to its service,
    -- then handleTest of panda-account, when it returns, has written its greeting alone if CreateClient
    -- has given no client of panda-auth; if it has given one, handleTest has asked panda-auth, over a
    -- connection that leads there, and has written the reply and the greeting after it, or nothing at all
    -- when the answer was an error.
    pub handle_test-Answers :
        DialsTarget outside
        → (w v : World C X W) (pages : Written) → IsRouted outside key w
        → handle_test outside key ask w ≡ returns (pages, v)
        → Answers ask
            (lit "PandaAuthClient")
            (lit "panda-auth")
            (lit "11")
            ((200, hello_world) ∷ [])
            pages_of
            w
            (pages, v)
    unfolding handle_test
    handle_test-Answers law w v pages routed h =
        let ((o, u), made, given) =
          >>=-eq-returns
            (create_client_wrapper outside key (λ c. is_auth c.kind) (lit "PandaAuthClient") w) _
            h in
        let (e, created) =
          wrapped law is_auth (lit "PandaAuthClient") (lit "panda-auth") panda_auth_client w u o
            routed auth_service auth_kind refl made in
        subst
          (Answers ask (lit "PandaAuthClient") (lit "panda-auth") (lit "11")
            ((200, hello_world) ∷ []) pages_of w)
          (returns_inj given) (with_auth-Answers law w o e u routed created)

    -- If a dialled connection leads to its target and every connection of the map leads to its service,
    -- then SayHello of panda-auth, when it returns, has no error: it has given its own text if
    -- CreateClient has given no client of panda-account; if it has given one, SayHello has asked
    -- panda-account, over a connection that leads there, and has given the reply, or the text of the error
    -- of that call as if it were a reply.
    pub say_hello-Answers :
        DialsTarget outside
        → (w v : World C X W) (answer : GoString × MaybeError) → IsRouted outside key w
        → say_hello outside key ask w ≡ returns (answer, v)
        → Answers ask
            (lit "PandaAccountClient")
            (lit "panda-account")
            (lit "123231")
            (lit "lgxsdjkl", none)
            text_of
            w
            (answer, v)
    unfolding say_hello
    say_hello-Answers law w v answer routed h =
        let ((o, u), made, given) =
          >>=-eq-returns
            (create_client_wrapper outside key (λ c. is_account c.kind) (lit "PandaAccountClient")
              w)
            _ h in
        let (e, created) =
          wrapped law is_account (lit "PandaAccountClient") (lit "panda-account")
            panda_account_client w u o routed account_service account_kind refl made in
        subst
          (Answers ask (lit "PandaAccountClient") (lit "panda-account") (lit "123231")
            (lit "lgxsdjkl", none) text_of w)
          (returns_inj given) (with_account-Answers law w o e u routed created)
