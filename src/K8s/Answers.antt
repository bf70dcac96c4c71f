-- ===== src/K8s/Answers.antt =====
-- When GetNewServiceEntity returns.
use panda_go.Prelude.{
  ◌≡◌, ◌≢◌, refl, Bool, Option, none, some, List, [], ◌∷◌, Bool-cases, Option-cases, inl, inr,
  nat_eq, list_eq,
}
use panda_go.Go.Text.{GoString}
use panda_go.Go.Map.{load}
use panda_go.Go.Sort.{insert_by, sort_slice}
use panda_go.Go.Outcome.{Outcome, returns}
use panda_go.K8s.{
  Listing, fails, empty_answer, lists, Service, Cache, sort_namespaces, namespaces_of, take_first,
  choose_namespace, ask_cluster, from_cache, get_new_service_entity,
}

-- The call returns.
abbrev pub Returns : {A : Type 0} → Outcome A → Type 0
Returns {A} o = (a : A) × (o ≡ returns a)

-- If the cluster answers by a list, the list has the service.
abbrev pub IsListed : Option Listing → GoString → Type 0
IsListed cluster name =
    (services : List Service) → cluster ≡ some (lists services) → namespaces_of name services ≢ []

module _ (less : GoString → GoString → Bool) where
  insert_by-nonempty : (x : GoString) (l : List GoString) → insert_by less x l ≢ []
  unfolding insert_by
  insert_by-nonempty x [] h = cc
  insert_by-nonempty x (y ∷ l) h = elim (Bool-cases (less x y)) [
    | inl p ↦ let k : ◌≡◌ {A = List GoString} (x ∷ y ∷ l) [] = rw (p, insert_by) at h in cc
    | inr p ↦
        let k : ◌≡◌ {A = List GoString} (y ∷ insert_by less x l) [] = rw (p, insert_by) at h in cc
  ]

  sort_slice-nonempty : (l : List GoString) → l ≢ [] → sort_slice less l ≢ []
  unfolding sort_slice
  sort_slice-nonempty [] ne h = ne refl
  sort_slice-nonempty (x ∷ l) ne h = insert_by-nonempty x (sort_slice less l) h

take_first-Returns :
    (b : Bool) (l : List GoString) (cache : Cache) → l ≢ [] → Returns (take_first b l cache)
take_first-Returns b [] cache ne = absurd (ne refl)
take_first-Returns b (ns ∷ l) cache ne = (((b, ns, none), cache), refl)

ask_cluster-Returns :
    (cluster : Option Listing) (name origin : GoString) (cache : Cache)
    → IsListed cluster name
    → Returns (ask_cluster cluster name origin cache)
unfolding ask_cluster choose_namespace sort_namespaces
ask_cluster-Returns none name origin cache h = (_, refl)
ask_cluster-Returns (some (fails e)) name origin cache h = (_, refl)
ask_cluster-Returns (some empty_answer) name origin cache h = (_, refl)
ask_cluster-Returns (some (lists services)) name origin cache h =
    take_first-Returns _ _ _ (sort_slice-nonempty _ (namespaces_of name services) (h services refl))

pub get_new_service_entity-Returns :
    (cluster : Option Listing) (name origin : GoString) (cache : Cache)
    → IsListed cluster name
    → Returns (get_new_service_entity cluster name origin cache)
unfolding get_new_service_entity
get_new_service_entity-Returns cluster name origin cache h =
    elim (Option-cases (from_cache origin (load name cache))) [
      | inl e ↦ rw (e, get_new_service_entity) (ask_cluster-Returns cluster name origin cache h)
      | inr (ns, e) ↦ rw (e, get_new_service_entity) (_, refl)
    ]
