-- ===== src/Grpc/Clients.antt =====
-- CreateClient and CreateClientWrapper of proto/pb/grpc-conn-client.go. `name` is the name of the
-- interface that the type argument is.
use panda_go.Prelude.{
  Bool, ◌≡◌, refl, Option, none, some, ◌==◌, arith, nat_eq, list_eq, subst, if◌then◌else◌,
}
use panda_go.Go.Text.{GoString, lit, trim_suffix}
use panda_go.Go.Error.{MaybeError, Result, ok, err}
use panda_go.Go.Outcome.{Outcome, returns, ◌>>=◌, >>=-eq-returns, returns_inj}
use panda_go.Utils.Kebab.{camel_to_kebab_case}
use panda_go.Grpc.World.{Outside, World}
use panda_go.Grpc.Dial.{get_conn}
use panda_go.Grpc.Routes.{Routes, IsRouted, DialsTarget, Connected, get_conn-Connected}

pub data ClientKind : Type 0 where
  panda_account_client : ClientKind
  panda_auth_client : ClientKind
  common_service_client : ClientKind

-- A generated client is its connection, with the methods of its kind.
pub record Client (C : Type 0) : Type 0 where
  pub kind : ClientKind
  pub conn : C

-- The cases of the switch
unfoldable pub client_kind : GoString → Option ClientKind
client_kind name =
    if name == lit "panda-account"
    then some panda_account_client
    else if name == lit "panda-auth"
    then some panda_auth_client
    else if name == lit "panda-export"
    then some common_service_client
    else none

abbrev pub service_of : GoString → GoString
service_of name = camel_to_kebab_case (trim_suffix name (lit "Client"))

module _ {C X W : Type 0} (outside : Outside C W) (key : GoString) where
  abbrev pub wrap_conn :
      ClientKind → Result C × World C X W → (Option (Client C) × MaybeError) × World C X W
  wrap_conn k (err e, w) = ((none, some e), w)
  wrap_conn k (ok c, w) = ((some (record { kind = k; conn = c }), none), w)

  abbrev pub create_with :
      GoString
      → Option ClientKind
      → World C X W
      → Outcome ((Option (Client C) × MaybeError) × World C X W)
  create_with service none w = returns ((none, none), w)
  create_with service (some k) w = get_conn outside key service w >>= (λ r. returns (wrap_conn k r))

  -- CreateClient
  unfoldable pub create_client :
      GoString → World C X W → Outcome ((Option (Client C) × MaybeError) × World C X W)
  create_client name w = create_with (service_of name) (client_kind (service_of name)) w

  -- CreateClientWrapper: `implements` is the type assertion to the interface
  unfoldable pub create_client_wrapper :
      (Client C → Bool) → GoString → World C X W → Outcome (Option (Client C) × World C X W)
  create_client_wrapper implements name w = create_client name w >>= (λ r.
      returns (elim r.0.0 [ none ↦ none | some c ↦ if implements c then some c else none ], r.1))

  -- What a call that has given a client leaves
  abbrev pub Serves : GoString → Client C → MaybeError → World C X W → Type 0
  Serves name client e w =
      (e ≡ none)
      × (client_kind (service_of name) ≡ some client.kind)
      × Routes outside (service_of name) client.conn
      × IsRouted outside key w

  -- Nothing is said of a call that has given no client.
  abbrev Left : GoString → (Option (Client C) × MaybeError) × World C X W → Type 0
  Left name ((none, e), w) = Unit
  Left name ((some client, e), w) = Serves name client e w

  wrap_conn-Serves :
      (name : GoString) (k : ClientKind) (r : Result C × World C X W) (client : Client C)
      (e : MaybeError) (v : World C X W)
      → Connected outside key (service_of name) r
      → client_kind (service_of name) ≡ some k
      → wrap_conn k r ≡ ((some client, e), v)
      → Serves name client e v
  wrap_conn-Serves name k (err d, u) client e v h m l = ground arith
  wrap_conn-Serves name k (ok c, u) client e v h m l =
      subst (Left name) l (refl, m, h.routes c refl, h.routed)

  create_with-Serves :
      DialsTarget outside
      → (name : GoString) (m : Option ClientKind) (w v : World C X W) (client : Client C)
        (e : MaybeError)
      → IsRouted outside key w
      → client_kind (service_of name) ≡ m
      → create_with (service_of name) m w ≡ returns ((some client, e), v)
      → Serves name client e v
  create_with-Serves law name none w v client e h m l = ground arith
  create_with-Serves law name (some k) w v client e h m l =
      let (r, got, made) = >>=-eq-returns (get_conn outside key (service_of name) w) _ l in
      wrap_conn-Serves name k r client e v
        (get_conn-Connected outside key law (service_of name) w r h got) m (returns_inj made)

  -- If a dialled connection leads to its target and every connection of the map leads to its service,
  -- then a client that CreateClient gives comes without an error, is of the kind of the service that the
  -- client's name spells in kebab case, its connection leads to that service, and the map is as sound as before.
  pub create_client-Serves :
      DialsTarget outside
      → (name : GoString) (w v : World C X W) (client : Client C) (e : MaybeError)
      → IsRouted outside key w
      → create_client name w ≡ returns ((some client, e), v)
      → Serves name client e v
  unfolding create_client
  create_client-Serves law name w v client e h l =
      create_with-Serves law name (client_kind (service_of name)) w v client e h refl l
