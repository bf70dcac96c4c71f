-- ===== src/Utils/Members/Names.antt =====
-- Which values changeStu2Map takes, and the keys of the map that it builds from them.
use panda_go.Prelude.{
  ap, ◌∙◌, sym, refl, Bool, true, false, ◌≡◌, List, [], arith, ◌∷◌, if◌then◌else◌, ◌==◌, Bool-cases,
  inl, inr, nat_eq, list_eq,
}
use panda_go.Go.Text.{GoString}
use panda_go.Go.Map.{GoMap, store, has_key, load-store}
use panda_go.Go.Outcome.{Outcome, returns, ◌>>=◌, >>=-eq-returns, returns_inj}
use panda_go.Utils.Members.{
  Marshaller, marsh_with_out_omitempty, Thing, nil_thing, nil_reference, leaf, reference, boxed,
  sequence, structure, Members, no_member, member, Things, no_thing, thing, Entry, is_dash,
  if_exported, name_from, change_stu2_map, change_target, change_members, change_member,
  change_things,
}

abbrev mutual
  -- Values that changeStu2Map takes: a struct, perhaps behind one pointer, whose fields it takes
  pub Takes : Thing → Type 0
  Takes nil_thing = ⊥
  Takes nil_reference = ⊥
  Takes (leaf n) = ⊥
  Takes (reference v) = TakesTarget v
  Takes (boxed v) = Takes v
  Takes (sequence vs) = ⊥
  Takes (structure ms) = TakesMembers ms

  pub TakesTarget : Thing → Type 0
  TakesTarget nil_thing = ⊥
  TakesTarget nil_reference = ⊥
  TakesTarget (leaf n) = ⊥
  TakesTarget (reference v) = ⊥
  TakesTarget (boxed v) = ⊥
  TakesTarget (sequence vs) = ⊥
  TakesTarget (structure ms) = TakesMembers ms

  -- Every field that is not left out by the tag "-"
  pub TakesMembers : Members → Type 0
  TakesMembers no_member = Unit
  TakesMembers (member name tag exported v ms) =
      (is_dash tag ≡ false → TakesMember exported v) × TakesMembers ms

  pub TakesMember : Bool → Thing → Type 0
  TakesMember exported nil_thing = ⊥
  TakesMember exported nil_reference = exported ≡ true
  TakesMember exported (leaf n) = exported ≡ true
  TakesMember exported (reference v) = exported ≡ true
  TakesMember exported (boxed v) = (exported ≡ true) × Takes v
  TakesMember exported (sequence vs) = TakesThings exported vs
  TakesMember exported (structure ms) = (exported ≡ true) × TakesMembers ms

  pub TakesThings : Bool → Things → Type 0
  TakesThings exported no_thing = Unit
  TakesThings exported (thing v vs) = ((exported ≡ true) × Takes v) × TakesThings exported vs

-- The name that a field gets is that of the key, unless the tag is "-".
abbrev pub names : Members → List GoString
names no_member = []
names (member name tag exported v ms) =
    if is_dash tag then names ms else name_from name tag ∷ names ms

abbrev Returns : {A : Type 0} → Outcome A → Type 0
Returns {A = A} o = (a : A) × (o ≡ returns a)

bind-Returns :
    {A B : Type 0} (o : Outcome A) (f : A → Outcome B)
    → Returns o
    → ((a : A) → Returns (f a))
    → Returns (o >>= f)
bind-Returns o f (a, e) h = let (b, k) = h a in (b, ap (λ p. p >>= f) e ∙ k)

exported-Returns :
    {A : Type 0} (exported : Bool) (o : Outcome A)
    → exported ≡ true
    → Returns o
    → Returns (if_exported exported o)
exported-Returns exported o e (a, h) = (a, ap (λ b. if_exported b o) e ∙ h)

skipped-Returns :
    {A : Type 0} (b : Bool) (o p : Outcome A)
    → Returns o
    → (b ≡ false → Returns p)
    → Returns (if b then o else p)
skipped-Returns true o p h k = h
skipped-Returns false o p h k = k refl

mutual
  unfolding change_stu2_map

  change_stu2_map-Returns : (v : Thing) → Takes v → Returns (change_stu2_map v)
  change_stu2_map-Returns nil_thing t = absurd t
  change_stu2_map-Returns nil_reference t = absurd t
  change_stu2_map-Returns (leaf n) t = absurd t
  change_stu2_map-Returns (reference v) t = change_target-Returns v t
  change_stu2_map-Returns (boxed v) t = change_stu2_map-Returns v t
  change_stu2_map-Returns (sequence vs) t = absurd t
  change_stu2_map-Returns (structure ms) t = change_members-Returns ms [] t

  change_target-Returns : (v : Thing) → TakesTarget v → Returns (change_target v)
  change_target-Returns nil_thing t = absurd t
  change_target-Returns nil_reference t = absurd t
  change_target-Returns (leaf n) t = absurd t
  change_target-Returns (reference v) t = absurd t
  change_target-Returns (boxed v) t = absurd t
  change_target-Returns (sequence vs) t = absurd t
  change_target-Returns (structure ms) t = change_members-Returns ms [] t

  change_members-Returns :
      (ms : Members) (d : GoMap GoString Entry) → TakesMembers ms → Returns (change_members ms d)
  change_members-Returns no_member d t = (d, refl)
  change_members-Returns (member name tag exported v ms) d t =
      skipped-Returns (is_dash tag) (change_members ms d)
        (change_member exported v >>= (λ e. change_members ms (store (name_from name tag) e d)))
        (change_members-Returns ms d t.1)
        (λ k.
          bind-Returns (change_member exported v) _ (change_member-Returns exported v (t.0 k))
            (λ e. change_members-Returns ms (store (name_from name tag) e d) t.1))

  change_member-Returns :
      (exported : Bool) (v : Thing) → TakesMember exported v → Returns (change_member exported v)
  change_member-Returns exported nil_thing t = absurd t
  change_member-Returns exported nil_reference t = exported-Returns exported _ t (_, refl)
  change_member-Returns exported (leaf n) t = exported-Returns exported _ t (_, refl)
  change_member-Returns exported (reference v) t = exported-Returns exported _ t (_, refl)
  change_member-Returns exported (boxed v) t =
      exported-Returns exported _ t.0
        (bind-Returns (change_stu2_map v) _ (change_stu2_map-Returns v t.1) (λ m. (_, refl)))
  change_member-Returns exported (sequence vs) t =
      bind-Returns (change_things exported vs) _ (change_things-Returns exported vs t)
        (λ es. (_, refl))
  change_member-Returns exported (structure ms) t =
      exported-Returns exported _ t.0
        (bind-Returns (change_members ms []) _ (change_members-Returns ms [] t.1) (λ m. (_, refl)))

  change_things-Returns :
      (exported : Bool) (vs : Things)
      → TakesThings exported vs
      → Returns (change_things exported vs)
  change_things-Returns exported no_thing t = (_, refl)
  change_things-Returns exported (thing v vs) t =
      bind-Returns (if_exported exported (change_stu2_map v)) _
        (exported-Returns exported (change_stu2_map v) t.0.0 (change_stu2_map-Returns v t.0.1))
        (λ m.
          bind-Returns (change_things exported vs) _ (change_things-Returns exported vs t.1)
            (λ es. (_, refl)))

abbrev pub named_in : GoString → List GoString → Bool
named_in k [] = false
named_in k (p ∷ ps) = if p == k then true else named_in k ps

has_key-store :
    (k n : GoString) (e : Entry) (d : GoMap GoString Entry)
    → has_key k (store n e d) ≡ (if n == k then true else has_key k d)
unfolding has_key
has_key-store k n e d = ground (arith, load-store n k e d)

plain : (a : Bool) → (if a then true else false) ≡ a
plain true = refl
plain false = refl

or_assoc :
    (a b c : Bool)
    → (if a then true else if b then true else c) ≡ (if (if b then true else a) then true else c)
or_assoc true true c = refl
or_assoc true false c = refl
or_assoc false true c = refl
or_assoc false false c = refl

-- The keys after the loop over the fields
change_members-keys :
    (ms : Members) (d m : GoMap GoString Entry) (k : GoString)
    → change_members ms d ≡ returns m
    → has_key k m ≡ (if named_in k (names ms) then true else has_key k d)
unfolding change_stu2_map
change_members-keys no_member d m k h = ap (has_key k) (sym (returns_inj h))
change_members-keys (member name tag exported v ms) d m k h = elim (Bool-cases (is_dash tag)) [
  | inl e ↦
      let skipped : change_members ms d ≡ returns m =
        sym (ap (λ b. if b then skip else take) e) ∙ h in
      rw e (change_members-keys ms d m k skipped)
  | inr e ↦
      let (x, taken, later) =
        >>=-eq-returns (change_member exported v)
          (λ x. change_members ms (store (name_from name tag) x d))
          (sym (ap (λ b. if b then skip else take) e) ∙ h) in
      rw e (
        change_members-keys ms (store (name_from name tag) x d) m k later
        ∙ ap (λ b. if named_in k (names ms) then true else b)
            (has_key-store k (name_from name tag) x d)
        ∙ or_assoc (named_in k (names ms)) (name_from name tag == k) (has_key k d))
]
  where
    skip : Outcome (GoMap GoString Entry)
    skip = change_members ms d

    take : Outcome (GoMap GoString Entry)
    take = change_member exported v >>= (λ x. change_members ms (store (name_from name tag) x d))

-- What changeStu2Map makes of a struct
change_stu2_map-names :
    (ms : Members)
    → TakesMembers ms
    → (m : GoMap GoString Entry) × (change_stu2_map (structure ms) ≡ returns m)
      × ((k : GoString) → has_key k m ≡ named_in k (names ms))
unfolding change_stu2_map has_key
change_stu2_map-names ms t =
    let (m, e) = change_members-Returns ms [] t in
    (m, e, λ k. change_members-keys ms [] m k e ∙ plain (named_in k (names ms)))

-- For a struct whose fields changeStu2Map takes, and for a pointer to it, MarshWithOutOmitempty
-- marshals one map, and the keys of this map are the names of all fields that the tag "-" does not
-- leave out, whatever they hold.
pub marsh_with_out_omitempty-names :
    (json : Marshaller) (ms : Members)
    → TakesMembers ms
    → (m : GoMap GoString Entry) × (marsh_with_out_omitempty json (structure ms)
        ≡ returns (json.marshal_map m))
      × (marsh_with_out_omitempty json (reference (structure ms)) ≡ returns (json.marshal_map m))
      × ((k : GoString) → has_key k m ≡ named_in k (names ms))
unfolding marsh_with_out_omitempty change_stu2_map
marsh_with_out_omitempty-names json ms t =
    let (m, e, keys) = change_stu2_map-names ms t in
    let marshal = ap (λ o. o >>= (λ n. returns (json.marshal_map n))) e in
    (m, marshal, marshal, keys)
