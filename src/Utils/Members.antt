-- ===== src/Utils/Members.antt =====
-- common/utils/utils.go: changeStu2Map, parseJSONTag and MarshWithOutOmitempty, on Go values as
-- reflection sees them. The order of the keys in the map that is built plays no part.
pub mod Names
use panda_go.Prelude.{
  ℕ, Bool, true, false, ◌≡◌, none, some, Option, List, [], ◌∷◌, ◌++◌, if◌then◌else◌, ◌==◌, nat_eq,
  list_eq,
}
use panda_go.Go.Text.{GoString, split}
use panda_go.Go.Map.{GoMap, store}
use panda_go.Go.Error.{Result}
use panda_go.Go.Outcome.{Outcome, returns, panics, ◌>>=◌}

mutual
  -- `leaf` is of a kind that changeStu2Map does not look into: a bool, a number, a string, a map, a
  -- function. `boxed` is what a variable of an interface type holds.
  pub data Thing : Type 0 where
    nil_thing : Thing
    nil_reference : Thing
    leaf : ℕ → Thing
    reference : Thing → Thing
    boxed : Thing → Thing
    sequence : Things → Thing
    structure : Members → Thing

  -- The fields of a struct: the name, the tag of the key "json", whether it is exported, the value
  pub data Members : Type 0 where
    no_member : Members
    member : GoString → GoString → Bool → Thing → Members → Members

  pub data Things : Type 0 where
    no_thing : Things
    thing : Thing → Things → Things

mutual
  -- The values of a map[string]interface{} that changeStu2Map builds: `kept` as they are, or made
  pub data Entry : Type 0 where
    kept : Thing → Entry
    object : Keyed → Entry
    array : Entries → Entry

  pub data Keyed : Type 0 where
    no_key : Keyed
    keyed : GoString → Entry → Keyed → Keyed

  pub data Entries : Type 0 where
    no_entry : Entries
    entry : Entry → Entries → Entries

abbrev pub keyed_of : GoMap GoString Entry → Keyed
keyed_of [] = no_key
keyed_of ((k, e) ∷ m) = keyed k e (keyed_of m)

unfoldable pub parse_json_tag : GoString → List GoString
unfolding split
parse_json_tag tag = split tag b','

-- options[0]; strings.Split returns at least one part.
abbrev pub first_option : List GoString → GoString
first_option [] = []
first_option (o ∷ os) = o

abbrev pub name_from : GoString → GoString → GoString
name_from name [] = name
name_from name (c ∷ tag) = first_option (parse_json_tag (c ∷ tag))

-- reflect.Value.Interface, which panics on a field that is not exported
abbrev pub if_exported : {A : Type 0} → Bool → Outcome A → Outcome A
if_exported true o = o
if_exported false o = panics

abbrev pub is_dash : GoString → Bool
is_dash tag = tag == b'-' ∷ []

unfoldable mutual
  -- changeStu2Map, of the value that the argument holds
  pub change_stu2_map : Thing → Outcome (GoMap GoString Entry)
  change_stu2_map nil_thing = panics
  change_stu2_map nil_reference = panics
  change_stu2_map (leaf n) = panics
  change_stu2_map (reference v) = change_target v
  change_stu2_map (boxed v) = change_stu2_map v
  change_stu2_map (sequence vs) = panics
  change_stu2_map (structure ms) = change_members ms []

  -- The same, of what a pointer points to
  pub change_target : Thing → Outcome (GoMap GoString Entry)
  change_target nil_thing = panics
  change_target nil_reference = panics
  change_target (leaf n) = panics
  change_target (reference v) = panics
  change_target (boxed v) = panics
  change_target (sequence vs) = panics
  change_target (structure ms) = change_members ms []

  -- The loop over the fields
  pub change_members : Members → GoMap GoString Entry → Outcome (GoMap GoString Entry)
  change_members no_member data_map = returns data_map
  change_members (member name tag exported v ms) data_map =
      if is_dash tag
      then change_members ms data_map
      else (change_member exported v
          >>= (λ e. change_members ms (store (name_from name tag) e data_map)))

  -- What becomes of one field
  pub change_member : Bool → Thing → Outcome Entry
  change_member exported nil_thing = panics
  change_member exported nil_reference = if_exported exported (returns (kept nil_reference))
  change_member exported (leaf n) = if_exported exported (returns (kept (leaf n)))
  change_member exported (reference v) = if_exported exported (returns (kept (reference v)))
  change_member exported (boxed v) =
      if_exported exported (change_stu2_map v >>= (λ m. returns (object (keyed_of m))))
  change_member exported (sequence vs) = change_things exported vs >>= (λ es. returns (array es))
  change_member exported (structure ms) =
      if_exported exported (change_members ms [] >>= (λ m. returns (object (keyed_of m))))

  -- The loop over the elements of a slice
  pub change_things : Bool → Things → Outcome Entries
  change_things exported no_thing = returns no_entry
  change_things exported (thing v vs) =
      if_exported exported (change_stu2_map v)
      >>= (λ m. change_things exported vs >>= (λ es. returns (entry (object (keyed_of m)) es)))

-- json.Marshal, of a value and of a map
pub record Marshaller : Type 0 where
  pub marshal_thing : Thing → Result GoString
  pub marshal_map : GoMap GoString Entry → Result GoString

module _ (json : Marshaller) where
  abbrev pub marsh_map : Thing → Outcome (Result GoString)
  marsh_map v = change_stu2_map v >>= (λ m. returns (json.marshal_map m))

  -- MarshWithOutOmitempty: which way a value goes is decided behind at most one pointer.
  unfoldable pub marsh_with_out_omitempty : Thing → Outcome (Result GoString)
  unfolding change_stu2_map
  marsh_with_out_omitempty nil_thing = returns (json.marshal_thing nil_thing)
  marsh_with_out_omitempty nil_reference = returns (json.marshal_thing nil_reference)
  marsh_with_out_omitempty (leaf n) = returns (json.marshal_thing (leaf n))
  marsh_with_out_omitempty (reference nil_thing) = marsh_map (reference nil_thing)
  marsh_with_out_omitempty (reference nil_reference) =
      returns (json.marshal_thing (reference nil_reference))
  marsh_with_out_omitempty (reference (leaf n)) = returns (json.marshal_thing (reference (leaf n)))
  marsh_with_out_omitempty (reference (reference v)) =
      returns (json.marshal_thing (reference (reference v)))
  marsh_with_out_omitempty (reference (boxed v)) = marsh_map (reference (boxed v))
  marsh_with_out_omitempty (reference (sequence vs)) = marsh_map (reference (sequence vs))
  marsh_with_out_omitempty (reference (structure ms)) = marsh_map (reference (structure ms))
  marsh_with_out_omitempty (boxed v) = marsh_with_out_omitempty v
  marsh_with_out_omitempty (sequence vs) = marsh_map (sequence vs)
  marsh_with_out_omitempty (structure ms) = marsh_map (structure ms)
