-- ===== src/K8s.antt =====
-- component/k8s/k8s.go: the discovery of a service's namespace, with its cache. The cluster's answer
-- to the list call is an argument.
pub mod Choice
pub mod Discovery
pub mod Answers
use panda_go.Prelude.{
  Bool, true, false, Option, none, some, List, [], ◌∷◌, ◌++◌, if◌then◌else◌, ◌==◌, nat_eq, list_eq,
}
use panda_go.Go.Text.{GoString, lit, is_empty}
use panda_go.Go.Map.{GoMap, load, store}
use panda_go.Go.Error.{Error, MaybeError, Result, ok, err}
use panda_go.Go.Outcome.{Outcome, returns, panics}
use panda_go.Go.Sort.{sort_slice, str_lt}
use panda_go.Utils.Arrays.{in_array}

-- GetK8sConfig: the configuration is there once the client has been set up
unfoldable pub get_k8s_config : {C : Type 0} → Option C → Result C
get_k8s_config none = err (lit "not found k8s config")
get_k8s_config (some config) = ok config

pub record Service : Type 0 where
  pub name : GoString
  pub namespace : GoString

-- What Services("").List returns: an error, no list, or a list.
pub data Listing : Type 0 where
  fails : Error → Listing
  empty_answer : Listing
  lists : List Service → Listing

abbrev pub Cache : Type 0
Cache = GoMap GoString (List GoString)

-- isChange, namespace, err
abbrev pub Entity : Type 0
Entity = Bool × GoString × MaybeError

-- The test of sortNamespacesFunc: the special namespace stands before all others
unfoldable pub before : GoString → GoString → GoString → Bool
before special a b = if a == special then true else if b == special then false else str_lt a b

unfoldable pub sort_namespaces : List GoString → GoString → List GoString
unfolding before
sort_namespaces namespaces head_namespace =
    sort_slice (before (if is_empty head_namespace then lit "default" else head_namespace))
      namespaces

-- The loop over services.Items: the namespaces of the services of that name
unfoldable pub namespaces_of : GoString → List Service → List GoString
namespaces_of service_name [] = []
namespaces_of service_name (s ∷ rest) =
    let found = namespaces_of service_name rest in
    if s.name == service_name then s.namespace ∷ found else found

-- namespaces[0]
abbrev pub take_first : Bool → List GoString → Cache → Outcome (Entity × Cache)
take_first is_change [] cache = panics
take_first is_change (ns ∷ rest) cache = returns ((is_change, ns, none), cache)

-- The namespaces found, sorted in place in the cache
unfoldable pub choose_namespace :
    GoString → GoString → List GoString → Cache → Outcome (Entity × Cache)
unfolding sort_namespaces
choose_namespace service_name origin found cache =
    let known = in_array origin found in
    let sorted = sort_namespaces found (if known then origin else []) in
    take_first (if known then false else true) sorted (store service_name sorted cache)

-- The part of GetNewServiceEntity behind the look at the cache; `none` is a missing client
unfoldable pub ask_cluster : Option Listing → GoString → GoString → Cache → Outcome (Entity × Cache)
ask_cluster none service_name origin cache = returns (
  (false, [], some (lit "[GetNewServiceEntity] [GetK8sClient] is nil in function GetService")),
  cache,
)
ask_cluster (some (fails e)) service_name origin cache = returns ((false, origin, some e), cache)
ask_cluster (some empty_answer) service_name origin cache = returns ((false, origin, none), cache)
ask_cluster (some (lists services)) service_name origin cache =
    choose_namespace service_name origin (namespaces_of service_name services) cache

-- The first cached namespace, if the cache holds some and `origin` is not among them
unfoldable pub from_cache : GoString → Option (List GoString) → Option GoString
from_cache origin none = none
from_cache origin (some []) = none
from_cache origin (some (ns ∷ rest)) = if in_array origin (ns ∷ rest) then none else some ns

-- GetNewServiceEntity
unfoldable pub get_new_service_entity :
    Option Listing → GoString → GoString → Cache → Outcome (Entity × Cache)
get_new_service_entity cluster service_name origin cache =
    elim (from_cache origin (load service_name cache)) [
      | some ns ↦ returns ((true, ns, none), cache)
      | none ↦ ask_cluster cluster service_name origin cache
    ]
