-- ===== src/K8s/Discovery.antt =====
-- What GetNewServiceEntity returns, on each of its paths.
use panda_go.Prelude.{
  Bool, true, false, not, ◌≡◌, ◌≢◌, refl, Option, none, some, List, [], ◌∷◌, arith, Bool-cases, inl,
  inr, if◌then◌else◌, nat_eq, list_eq,
}
use panda_go.Go.Text.{GoString, lit, is_empty}
use panda_go.Go.Map.{load}
use panda_go.Go.Outcome.{returns, panics}
use panda_go.Go.Sort.{sort_slice, first}
use panda_go.Utils.Arrays.{in_array}
use panda_go.K8s.{
  Service, Listing, lists, Cache, Entity, sort_namespaces, namespaces_of, take_first,
  choose_namespace, ask_cluster, from_cache, get_new_service_entity,
}
use panda_go.K8s.Choice.{NoneBefore, sort-first_special, sort-IsLeast}

-- A namespace chosen among `found` for a client that was at `origin`: the client stays where it is if
-- it can, goes to "default" if that is offered, and to the least namespace otherwise.
pub record Chosen (origin : GoString) (found : List GoString) (e : Entity) : Type 0 where
  pub no_error : e.2 ≡ none
  pub changed : e.0 ≡ not (in_array origin found)
  pub stays : in_array origin found ≡ true → e.1 ≡ origin
  pub default :
      in_array origin found ≡ false → in_array (lit "default") found ≡ true → e.1 ≡ lit "default"
  pub least :
      in_array origin found ≡ false
      → in_array (lit "default") found ≡ false
      → (in_array e.1 found ≡ true) × NoneBefore (lit "default") e.1 found

take_first_lem :
    (b : Bool) (l : List GoString) (cache : Cache) (g : GoString)
    → first l ≡ some g
    → take_first b l cache ≡ returns ((b, g, none), cache)
take_first_lem b [] cache g h = cc
take_first_lem b (x ∷ l) cache g h = cc

-- The namespace that `choose_namespace` takes, with the proof that it stands first.
record Head (origin : GoString) (found : List GoString) : Type 0 where
  ns : GoString
  is_first : first (sort_namespaces found (if in_array origin found then origin else [])) ≡ some ns
  stays : in_array origin found ≡ true → ns ≡ origin
  default :
      in_array origin found ≡ false → in_array (lit "default") found ≡ true → ns ≡ lit "default"
  least :
      in_array origin found ≡ false
      → in_array (lit "default") found ≡ false
      → (in_array ns found ≡ true) × NoneBefore (lit "default") ns found

Head-known :
    (origin : GoString) (found : List GoString)
    → is_empty origin ≡ false
    → in_array origin found ≡ true
    → Head origin found
unfolding sort_namespaces
Head-known origin found ne known = record {
  ns = origin;
  is_first = rw (known, ne) (sort-first_special origin found known);
  stays = λ _. refl;
  default = λ h. absurd (clash known h);
  least = λ h. absurd (clash known h);
}
  where
    clash : {b : Bool} → b ≡ true → b ≡ false → ⊥
    clash p q = cc

Head-default :
    (origin : GoString) (found : List GoString)
    → in_array origin found ≡ false
    → in_array (lit "default") found ≡ true
    → Head origin found
unfolding sort_namespaces
Head-default origin found unknown offered = record {
  ns = lit "default";
  is_first = rw unknown (sort-first_special (lit "default") found offered);
  stays = λ h. ground arith;
  default = λ _ _. refl;
  least = λ _ h. ground arith;
}

Head-least :
    (origin x : GoString) (xs : List GoString)
    → in_array origin (x ∷ xs) ≡ false
    → in_array (lit "default") (x ∷ xs) ≡ false
    → Head origin (x ∷ xs)
unfolding sort_namespaces
Head-least origin x xs unknown missing =
    let (g, (fst, mem, none_before), _) = sort-IsLeast (lit "default") x xs missing in
    record {
      ns = g;
      is_first = rw unknown fst;
      stays = λ h. ground arith;
      default = λ _ h. ground arith;
      least = λ _ _. (mem, none_before);
    }

known_nonempty :
    (origin : GoString) (found : List GoString)
    → in_array [] found ≡ false
    → in_array origin found ≡ true
    → is_empty origin ≡ false
known_nonempty [] found none_empty known = cc
known_nonempty (c ∷ s) found none_empty known = refl

Head-of :
    (origin x : GoString) (xs : List GoString) → in_array [] (x ∷ xs) ≡ false → Head origin (x ∷ xs)
Head-of origin x xs ne = elim (Bool-cases (in_array origin (x ∷ xs))) [
  | inl known ↦ Head-known origin (x ∷ xs) (known_nonempty origin (x ∷ xs) ne known) known
  | inr unknown ↦ elim (Bool-cases (in_array (lit "default") (x ∷ xs))) [
    | inl offered ↦ Head-default origin (x ∷ xs) unknown offered
    | inr missing ↦ Head-least origin x xs unknown missing
  ]
]

module _ (service_name origin : GoString) (cache : Cache) where
  choose_lem :
      (found : List GoString)
      → found ≢ []
      → in_array [] found ≡ false
      → (e : Entity) × (cache' : Cache) × (choose_namespace service_name origin found cache
          ≡ returns (e, cache'))
        × Chosen origin found e
  unfolding choose_namespace
  choose_lem [] some_found ne = absurd (some_found refl)
  choose_lem (x ∷ xs) some_found ne =
      let h = Head-of origin x xs ne in
      (
        (if in_array origin (x ∷ xs) then false else true, h.ns, none),
        _,
        take_first_lem _ _ _ h.ns h.is_first,
        record {
          no_error = refl;
          changed = ground arith;
          stays = h.stays;
          default = h.default;
          least = h.least;
        },
      )

  -- Where the cache gives no answer and the cluster lists the service, in namespaces with names, the
  -- result is a listed namespace, chosen as `Chosen` says.
  pub discovered :
      (services : List Service)
      → from_cache origin (load service_name cache) ≡ none
      → namespaces_of service_name services ≢ []
      → in_array [] (namespaces_of service_name services) ≡ false
      → (e : Entity) × (cache' : Cache) × (get_new_service_entity
            (some (lists services))
            service_name
            origin
            cache
          ≡ returns (e, cache'))
        × Chosen origin (namespaces_of service_name services) e
  unfolding get_new_service_entity ask_cluster
  discovered services uncached some_found ne =
      let (e, cache', eq, chosen) =
        choose_lem (namespaces_of service_name services) some_found ne in
      (e, cache', rw (uncached, get_new_service_entity) eq, chosen)

  -- Where the cache gives no answer and the cluster lists no service of that name, the call panics on
  -- the first element of an empty list; the error "not found in k8s" is never returned.
  pub unlisted_panics :
      (services : List Service)
      → from_cache origin (load service_name cache) ≡ none
      → namespaces_of service_name services ≡ []
      → get_new_service_entity (some (lists services)) service_name origin cache ≡ panics
  unfolding get_new_service_entity ask_cluster
  unlisted_panics services uncached unlisted =
      rw (uncached, get_new_service_entity)
        (rw unlisted (unfold choose_namespace sort_namespaces sort_slice in refl))

  -- A cached namespace is returned, as a change and without asking the cluster, just when the cache
  -- holds namespaces for the service and `origin` is not among them.
  pub cached_answer :
      (cluster : Option Listing) (ns : GoString) (rest : List GoString)
      → load service_name cache ≡ some (ns ∷ rest)
      → get_new_service_entity cluster service_name origin cache ≡ (
          if in_array origin (ns ∷ rest)
          then ask_cluster cluster service_name origin cache
          else returns ((true, ns, none), cache))
  unfolding get_new_service_entity from_cache
  cached_answer cluster ns rest h = rw (h, get_new_service_entity) (ground arith)
