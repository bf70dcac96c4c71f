-- ===== src/Grpc/Relation.antt =====
-- What a new configuration of namespaces does: every service that it names is resolved as it says,
-- and just the connections of the services that it moves are dropped.
use panda_go.Prelude.{
  false, ◌≡◌, refl, Option, none, some, [], ◌∷◌, arith, if◌then◌else◌, Bool-cases, inl, inr, ==_iff,
  nat_eq, list_eq,
}
use panda_go.Go.Text.{GoString, is_empty}
use panda_go.Go.Map.{GoMap, load, delete, load-delete}
use panda_go.Utils.SyncMap.{
  Value, text, other, as_text, Unique, get_normal_map_from_sync_map, load-stor_sync_map,
  load-get_normal_map,
}
use panda_go.Grpc.World.{
  Outside, World, delete_keys, delete_by_service_keys, get_service_namespace, namespace_or_empty,
  same_namespace, diff_entries, keys, apply_relation, on_relation,
}

-- The value of a name among the entries that differ.
abbrev pub differing : Option GoString → Option GoString → Option GoString
differing none old = none
differing (some ns) old = if same_namespace old ns then none else some ns

load-diff_entries :
    (name : GoString) (new old : GoMap GoString GoString)
    → Unique new
    → load name (diff_entries new old) ≡ differing (load name new) (load name old)
unfolding diff_entries load
load-diff_entries name [] old u = refl
load-diff_entries name ((k, ns) ∷ rest) old u =
    ground (arith, load-diff_entries name rest old u.1, ==_iff k name)

Unique-diff_entries :
    (new old : GoMap GoString GoString) → Unique new → Unique (diff_entries new old)
unfolding diff_entries
Unique-diff_entries [] old u = tt
Unique-diff_entries ((k, ns) ∷ rest) old u = elim (Bool-cases (same_namespace (load k old) ns)) [
  | inl p ↦ rw p (Unique-diff_entries rest old u.1)
  | inr p ↦ rw p (rw (load-diff_entries k rest old u.1, u.0) refl, Unique-diff_entries rest old u.1)
]

load-delete_keys :
    {C : Type 0} (name : GoString) (d : GoMap GoString GoString) (m : GoMap GoString C)
    → load name (delete_keys (keys d) m)
      ≡ elim (load name d) [ none ↦ load name m | some ns ↦ none ]
unfolding delete_keys keys load
load-delete_keys name [] m = refl
load-delete_keys name ((k, ns) ∷ rest) m =
    ground (arith, load-delete_keys name rest (delete k m), load-delete k name m)

resolved :
    {X : Type 0} (n : Option GoString) (old : Option (Value X))
    → namespace_or_empty
        (elim (differing n (as_text old)) [ none ↦ old | some ns ↦ some (text ns) ])
      ≡ elim n [ none ↦ namespace_or_empty old | some ns ↦ ns ]
resolved none old = refl
resolved (some ns) none = refl
resolved (some ns) (some (other x)) = refl
resolved (some ns) (some (text s)) = ground (arith, ==_iff ns s)

module _ {C X W : Type 0} (outside : Outside C W) where
  -- A new configuration with text, whose map and the old one have no key twice, resolves each service that it names to the namespace that it gives,
  -- and leaves the others; it drops the connection of a service just when it gives the service a
  -- namespace other than the one before.
  pub on_relation-resolves :
      (value name : GoString) (w : World C X W)
      → is_empty value ≡ false
      → Unique (outside.unmarshal value).0
      → Unique w.service2namespace_map
      → (let new = load name (outside.unmarshal value).0 in
          (get_service_namespace name (on_relation outside value w)
            ≡ elim new [ none ↦ get_service_namespace name w | some ns ↦ ns ])
          × (load name (on_relation outside value w).service_name2conn_map
              ≡ elim (differing new (as_text (load name w.service2namespace_map))) [
                | none ↦ load name w.service_name2conn_map
                | some ns ↦ none
              ]))
  unfolding on_relation apply_relation delete_by_service_keys get_service_namespace
  on_relation-resolves value name w filled u v =
      let new = (outside.unmarshal value).0 in
      let old = get_normal_map_from_sync_map w.service2namespace_map in
      let diff = load-diff_entries name new old u in
      let known = load-get_normal_map name w.service2namespace_map v in
      rw filled (
        rw
            (
              load-stor_sync_map name (diff_entries new old) w.service2namespace_map
                  (Unique-diff_entries new old u),
              diff,
              known,
            )
            (resolved (load name new) (load name w.service2namespace_map)),
        rw (load-delete_keys name (diff_entries new old) w.service_name2conn_map, diff, known) refl,
      )
