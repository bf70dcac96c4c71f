-- ===== src/Log/Hidden.antt =====
-- What package desensitization hides, and what it leaves to be read.
use panda_go.Prelude.{
  ◌≡◌, refl, ap, sym, ◌∙◌, true, false, List, [], ◌∷◌, ◌++◌, nat_eq, list_eq, inl, inr, Bool-cases,
}
use panda_go.Go.Text.{GoString}
use panda_go.Go.Outcome.{returns, ◌>>=◌, >>=-eq-returns}
use panda_go.Log.Mask.{Text}
use panda_go.Log.Value.{
  Value, nil_interface, nil_pointer, plain, bare, text, named, boxed, pointer, structure, array,
  slice, mapping, Fields, no_field, field, Values, no_value, value,
}
use panda_go.Log.Copy.{
  deep_copy_v2, copy_field, copy_fields, copy_slice, copy_mapping, set_pointer, box,
}
use panda_go.Log.Hide.{
  find_and_transform, transform_field, transform_settable, transform_fields, desensitization,
  is_zero,
}

-- The texts that a logged value shows in its exported fields, with the names of the fields, those of
-- structs within it included, and what pointers, interfaces and slices lead to
-- left out.
unfoldable mutual
  pub shown_value : GoString → Value → List (GoString × Text)
  shown_value name (text s) = (name, s) ∷ []
  shown_value name (named s) = (name, s) ∷ []
  shown_value name (boxed v) = []
  shown_value name (structure fs) = shown fs
  shown_value name nil_interface = []
  shown_value name nil_pointer = []
  shown_value name (plain n) = []
  shown_value name (bare n) = []
  shown_value name (pointer v) = []
  shown_value name (array vs) = []
  shown_value name (slice vs) = []
  shown_value name (mapping ks vs) = []

  pub shown : Fields → List (GoString × Text)
  shown no_field = []
  shown (field name true v fs) = shown_value name v ++ shown fs
  shown (field name false v fs) = shown fs

returned : {A : Type 0} {a b : A} → returns a ≡ returns b → a ≡ b
returned h = cc

mutual
  unfolding transform_fields transform_field shown shown_value

  transform_field-shown :
      (name : GoString) (v w : Value)
      → transform_field false name v ≡ returns w
      → shown_value name w ≡ shown_value name v
  transform_field-shown name (pointer v) w h =
      let (u, _, same) = >>=-eq-returns (transform_settable name v) _ h in
      ap (shown_value name) (sym (returned same))
  transform_field-shown name nil_interface w h = ap (shown_value name) (sym (returned h))
  transform_field-shown name nil_pointer w h = ap (shown_value name) (sym (returned h))
  transform_field-shown name (plain n) w h = ap (shown_value name) (sym (returned h))
  transform_field-shown name (bare n) w h = ap (shown_value name) (sym (returned h))
  transform_field-shown name (text s) w h = ap (shown_value name) (sym (returned h))
  transform_field-shown name (named s) w h = ap (shown_value name) (sym (returned h))
  transform_field-shown name (boxed v) w h = ap (shown_value name) (sym (returned h))
  transform_field-shown name (structure fs) w h = ap (shown_value name) (sym (returned h))
  transform_field-shown name (array vs) w h = ap (shown_value name) (sym (returned h))
  transform_field-shown name (slice vs) w h = ap (shown_value name) (sym (returned h))
  transform_field-shown name (mapping ks vs) w h = ap (shown_value name) (sym (returned h))

  transform_fields-shown :
      (fs gs : Fields) → transform_fields false fs ≡ returns gs → shown gs ≡ shown fs
  transform_fields-shown no_field gs h = ap shown (sym (returned h))
  transform_fields-shown (field name true v fs) gs h =
      let (w, changed, after) = >>=-eq-returns (transform_field false name v) _ h in
      let (rest, others, same) = >>=-eq-returns (transform_fields false fs) _ after in
      ap shown (sym (returned same))
      ∙ rw (transform_field-shown name v w changed, transform_fields-shown fs rest others) refl
  transform_fields-shown (field name false v fs) gs h =
      let (rest, others, same) = >>=-eq-returns (transform_fields false fs) _ h in
      ap shown (sym (returned same)) ∙ transform_fields-shown fs rest others

-- A result that shows as much as `v`, whatever the name.
ShowsAs : Value → Value → Type 0
ShowsAs v w = (name : GoString) → shown_value name w ≡ shown_value name v

same-ShowsAs : {v w : Value} → v ≡ w → ShowsAs v w
unfolding ShowsAs
same-ShowsAs h name = ap (shown_value name) (sym h)

set_pointer-shown : (v w u : Value) → set_pointer v ≡ returns w → ShowsAs (pointer u) w
unfolding ShowsAs shown_value
set_pointer-shown (plain n) w u h name = ap (shown_value name) (sym (returned h))
set_pointer-shown (text s) w u h name = ap (shown_value name) (sym (returned h))
set_pointer-shown (named s) w u h name = ap (shown_value name) (sym (returned h))
set_pointer-shown (boxed v) w u h name = ap (shown_value name) (sym (returned h))
set_pointer-shown nil_interface w u h name = ap (shown_value name) (sym (returned h))
set_pointer-shown nil_pointer w u h name = cc
set_pointer-shown (bare n) w u h name = cc
set_pointer-shown (pointer v) w u h name = cc
set_pointer-shown (structure fs) w u h name = cc
set_pointer-shown (array vs) w u h name = cc
set_pointer-shown (slice vs) w u h name = cc
set_pointer-shown (mapping ks vs) w u h name = cc

copy_slice-shown : (vs : Values) (w : Value) → copy_slice vs ≡ returns w → ShowsAs (slice vs) w
unfolding ShowsAs shown_value
copy_slice-shown no_value w h name = ap (shown_value name) (sym (returned h))
copy_slice-shown (value v vs) w h name = cc

copy_mapping-shown :
    (ks vs : Values) (w : Value) → copy_mapping ks ≡ returns w → ShowsAs (mapping ks vs) w
unfolding ShowsAs shown_value
copy_mapping-shown no_value vs w h name = ap (shown_value name) (sym (returned h))
copy_mapping-shown (value k ks) vs w h name = cc

box-shown : (name : GoString) (v : Value) → shown_value name (box v) ≡ []
unfolding shown_value
box-shown name nil_interface = refl
box-shown name nil_pointer = refl
box-shown name (plain n) = refl
box-shown name (bare n) = refl
box-shown name (text s) = refl
box-shown name (named s) = refl
box-shown name (boxed v) = refl
box-shown name (pointer v) = refl
box-shown name (structure fs) = refl
box-shown name (array vs) = refl
box-shown name (slice vs) = refl
box-shown name (mapping ks vs) = refl

mutual
  unfolding copy_field copy_fields ShowsAs shown shown_value

  copy_field-shown : (v w : Value) → copy_field v ≡ returns w → ShowsAs v w
  copy_field-shown nil_interface w h = same-ShowsAs (returned h)
  copy_field-shown nil_pointer w h = cc
  copy_field-shown (plain n) w h = same-ShowsAs (returned h)
  copy_field-shown (bare n) w h = λ name. ap (shown_value name) (sym (returned h))
  copy_field-shown (text s) w h = same-ShowsAs (returned h)
  copy_field-shown (named s) w h = same-ShowsAs (returned h)
  copy_field-shown (boxed v) w h =
      let (u, _, same) = >>=-eq-returns (deep_copy_v2 v) (λ x. returns (box x)) h in
      λ name. ap (shown_value name) (sym (returned same)) ∙ box-shown name u
  copy_field-shown (pointer v) w h = set_pointer-shown v w v h
  copy_field-shown (structure fs) w h =
      let (gs, copied, same) = >>=-eq-returns (copy_fields fs) (λ gs. returns (structure gs)) h in
      λ name. ap (shown_value name) (sym (returned same)) ∙ copy_fields-shown fs gs copied
  copy_field-shown (array vs) w h = cc
  copy_field-shown (slice vs) w h = copy_slice-shown vs w h
  copy_field-shown (mapping ks vs) w h = copy_mapping-shown ks vs w h

  copy_fields-shown : (fs gs : Fields) → copy_fields fs ≡ returns gs → shown gs ≡ shown fs
  copy_fields-shown no_field gs h = ap shown (sym (returned h))
  copy_fields-shown (field name true v fs) gs h =
      let (w, copied, after) = >>=-eq-returns (copy_field v) _ h in
      let (rest, others, same) = >>=-eq-returns (copy_fields fs) _ after in
      ap shown (sym (returned same))
      ∙ rw (copy_field-shown v w copied name, copy_fields-shown fs rest others) refl
  copy_fields-shown (field name false v fs) gs h =
      let (rest, others, same) = >>=-eq-returns (copy_fields fs) _ h in
      ap shown (sym (returned same)) ∙ copy_fields-shown fs rest others

-- When desensitization returns for a struct that is no proto.Message, the result has the same texts in
-- its exported string fields, those of structs within it included: none is masked, whatever its name.
pub desensitization-shown :
    (fs : Fields) (name : GoString) (v : Value)
    → desensitization false (structure fs) ≡ returns v
    → shown_value name v ≡ shown fs
unfolding desensitization deep_copy_v2 copy_field find_and_transform shown_value ShowsAs
desensitization-shown fs name v h = elim (Bool-cases (is_zero (structure fs))) [
  | inl p ↦ ap (shown_value name) (sym (returned (rw (p, desensitization) at h)))
  | inr p ↦
      let k : (copy_fields fs
            >>= (λ gs. returns (structure gs))
            >>= (λ w. find_and_transform false w))
          ≡ returns v =
        rw (p, desensitization) at h in
      let (w, copied, after) =
        >>=-eq-returns (copy_fields fs >>= (λ gs. returns (structure gs))) _ k in
      let (gs, fields, same) = >>=-eq-returns (copy_fields fs) _ copied in
      let changing : find_and_transform false (structure gs) ≡ returns v =
        ap (find_and_transform false) (returned same) ∙ after in
      let (hs, changed, put) = >>=-eq-returns (transform_fields false gs) _ changing in
      ap (shown_value name) (sym (returned put))
      ∙ transform_fields-shown gs hs changed
      ∙ copy_fields-shown fs gs fields
]
