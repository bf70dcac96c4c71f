-- ===== src/Log/Masked.antt =====
-- What package desensitization masks in a value that it can change.
use panda_go.Prelude.{◌≡◌, refl, ap, ◌∙◌, true, false, nat_eq, list_eq}
use panda_go.Go.Text.{GoString}
use panda_go.Go.Outcome.{Outcome, returns, ◌>>=◌}
use panda_go.Log.Value.{
  Value, nil_interface, nil_pointer, plain, bare, text, named, boxed, pointer, structure, array,
  slice, mapping, Fields, no_field, field, Values, no_value, value,
}
use panda_go.Log.Hide.{
  transform_target, find_and_transform, transform_settable, transform_field, transform_fields,
  transform_slice, desensitization, is_zero,
}
use panda_go.Log.Secret.{
  apply_rule-IsSecret, SettableIsSecret, FieldIsSecret, TargetIsSecret, ElementIsSecret,
  FieldsAreSecret, ElementsAreSecret,
}

-- No string that can be reached is of another type than string; interfaces are not looked into.
unfoldable mutual
  pub Unnamed : Value → Type 0
  Unnamed (named s) = ⊥
  Unnamed (pointer v) = Unnamed v
  Unnamed (structure fs) = UnnamedFields fs
  Unnamed (slice vs) = UnnamedElements vs
  Unnamed nil_interface = Unit
  Unnamed nil_pointer = Unit
  Unnamed (plain n) = Unit
  Unnamed (bare n) = Unit
  Unnamed (text s) = Unit
  Unnamed (boxed v) = Unit
  Unnamed (array vs) = Unit
  Unnamed (mapping ks vs) = Unit

  pub UnnamedFields : Fields → Type 0
  UnnamedFields no_field = Unit
  UnnamedFields (field name exported v fs) = Unnamed v × UnnamedFields fs

  pub UnnamedElements : Values → Type 0
  UnnamedElements no_value = Unit
  UnnamedElements (value v vs) = Unnamed v × UnnamedElements vs

abbrev Yields : {A : Type 0} → (A → Type 0) → Outcome A → Type 0
Yields {A = A} P o = (a : A) × (o ≡ returns a) × P a

after_Yields :
    {A B : Type 0} (P : A → Type 0) (Q : B → Type 0) (o : Outcome A) (f : A → Outcome B)
    → Yields P o
    → ((a : A) → P a → Yields Q (f a))
    → Yields Q (o >>= f)
after_Yields P Q o f (a, e, p) h = let (b, k, q) = h a p in (b, ap (λ x. x >>= f) e ∙ k, q)

-- A part is transformed and put back into its place.
wrap_Yields :
    {A B : Type 0} (P : A → Type 0) (Q : B → Type 0) (o : Outcome A) (f : A → B)
    → Yields P o
    → ((a : A) → P a → Q (f a))
    → Yields Q (o >>= (λ a. returns (f a)))
wrap_Yields P Q o f y h = after_Yields P Q o (λ a. returns (f a)) y (λ a p. (f a, refl, h a p))

mutual
  unfolding transform_settable transform_field transform_target find_and_transform transform_fields
      transform_slice SettableIsSecret FieldIsSecret TargetIsSecret ElementIsSecret FieldsAreSecret
      ElementsAreSecret Unnamed

  transform_settable-secret :
      (name : GoString) (v : Value)
      → Unnamed v
      → Yields (SettableIsSecret name) (transform_settable name v)
  transform_settable-secret name (text s) u = (_, refl, apply_rule-IsSecret name s)
  transform_settable-secret name (structure fs) u =
      wrap_Yields FieldsAreSecret _ _ _ (transform_fields-secret fs u) (λ gs h. h)
  transform_settable-secret name (slice vs) u =
      wrap_Yields ElementsAreSecret _ _ _ (transform_slice-secret vs u) (λ ws h. h)
  transform_settable-secret name nil_interface u = (_, refl, tt)
  transform_settable-secret name nil_pointer u = (_, refl, tt)
  transform_settable-secret name (plain n) u = (_, refl, tt)
  transform_settable-secret name (bare n) u = (_, refl, tt)
  transform_settable-secret name (named s) u = absurd u
  transform_settable-secret name (boxed v) u = (_, refl, tt)
  transform_settable-secret name (pointer v) u = (_, refl, tt)
  transform_settable-secret name (array vs) u = (_, refl, tt)
  transform_settable-secret name (mapping ks vs) u = (_, refl, tt)

  transform_field-secret :
      (name : GoString) (v : Value)
      → Unnamed v
      → Yields (FieldIsSecret name) (transform_field true name v)
  transform_field-secret name (text s) u = (_, refl, apply_rule-IsSecret name s)
  transform_field-secret name (pointer v) u =
      wrap_Yields (SettableIsSecret name) _ _ _ (transform_settable-secret name v u) (λ w h. h)
  transform_field-secret name (structure fs) u =
      wrap_Yields FieldsAreSecret _ _ _ (transform_fields-secret fs u) (λ gs h. h)
  transform_field-secret name (slice vs) u =
      wrap_Yields ElementsAreSecret _ _ _ (transform_slice-secret vs u) (λ ws h. h)
  transform_field-secret name nil_interface u = (_, refl, tt)
  transform_field-secret name nil_pointer u = (_, refl, tt)
  transform_field-secret name (plain n) u = (_, refl, tt)
  transform_field-secret name (bare n) u = (_, refl, tt)
  transform_field-secret name (named s) u = absurd u
  transform_field-secret name (boxed v) u = (_, refl, tt)
  transform_field-secret name (array vs) u = (_, refl, tt)
  transform_field-secret name (mapping ks vs) u = (_, refl, tt)

  transform_target-secret :
      (v : Value) → Unnamed v → Yields TargetIsSecret (transform_target true v)
  transform_target-secret (structure fs) u =
      wrap_Yields FieldsAreSecret _ _ _ (transform_fields-secret fs u) (λ gs h. h)
  transform_target-secret (slice vs) u =
      wrap_Yields ElementsAreSecret _ _ _ (transform_slice-secret vs u) (λ ws h. h)
  transform_target-secret nil_interface u = (_, refl, tt)
  transform_target-secret nil_pointer u = (_, refl, tt)
  transform_target-secret (plain n) u = (_, refl, tt)
  transform_target-secret (bare n) u = (_, refl, tt)
  transform_target-secret (text s) u = (_, refl, tt)
  transform_target-secret (named s) u = absurd u
  transform_target-secret (boxed v) u = (_, refl, tt)
  transform_target-secret (pointer v) u = (_, refl, tt)
  transform_target-secret (array vs) u = (_, refl, tt)
  transform_target-secret (mapping ks vs) u = (_, refl, tt)

  find_and_transform-secret :
      (v : Value) → Unnamed v → Yields ElementIsSecret (find_and_transform true v)
  find_and_transform-secret (pointer v) u =
      wrap_Yields TargetIsSecret _ _ _ (transform_target-secret v u) (λ w h. h)
  find_and_transform-secret (structure fs) u =
      wrap_Yields FieldsAreSecret _ _ _ (transform_fields-secret fs u) (λ gs h. h)
  find_and_transform-secret (slice vs) u =
      wrap_Yields ElementsAreSecret _ _ _ (transform_slice-secret vs u) (λ ws h. h)
  find_and_transform-secret nil_interface u = (_, refl, tt)
  find_and_transform-secret nil_pointer u = (_, refl, tt)
  find_and_transform-secret (plain n) u = (_, refl, tt)
  find_and_transform-secret (bare n) u = (_, refl, tt)
  find_and_transform-secret (text s) u = (_, refl, tt)
  find_and_transform-secret (named s) u = absurd u
  find_and_transform-secret (boxed v) u = (_, refl, tt)
  find_and_transform-secret (array vs) u = (_, refl, tt)
  find_and_transform-secret (mapping ks vs) u = (_, refl, tt)

  transform_fields-secret :
      (fs : Fields) → UnnamedFields fs → Yields FieldsAreSecret (transform_fields true fs)
  transform_fields-secret no_field u = (_, refl, tt)
  transform_fields-secret (field name true v fs) u =
      after_Yields (FieldIsSecret name) _ _ _ (transform_field-secret name v u.0)
        (λ w h. wrap_Yields FieldsAreSecret _ _ _ (transform_fields-secret fs u.1) (λ gs k. (h, k)))
  transform_fields-secret (field name false v fs) u =
      wrap_Yields FieldsAreSecret _ _ _ (transform_fields-secret fs u.1) (λ gs h. h)

  transform_slice-secret :
      (vs : Values) → UnnamedElements vs → Yields ElementsAreSecret (transform_slice vs)
  transform_slice-secret no_value u = (_, refl, tt)
  transform_slice-secret (value v vs) u =
      after_Yields ElementIsSecret _ _ _ (find_and_transform-secret v u.0) (λ w h.
        wrap_Yields ElementsAreSecret _ _ _ (transform_slice-secret vs u.1) (λ ws k. (h, k)))

-- For a proto.Message, a pointer to a struct, whose string fields are all of the type string, as
-- generated ones are, desensitization returns one in which every string field that can be reached
-- through exported fields, single pointers and slices is secret: under the name of a password all
-- asterisks, under that of a phone number but for the first three and last two. What an interface
-- holds, such as the case of a oneof, is not reached.
pub desensitization-secret :
    (fs : Fields)
    → UnnamedFields fs
    → (gs : Fields) × (desensitization true (pointer (structure fs))
        ≡ returns (pointer (structure gs)))
      × FieldsAreSecret gs
unfolding desensitization find_and_transform transform_target is_zero
desensitization-secret fs u =
    let (gs, e, secret) = transform_fields-secret fs u in
    (gs, ap (λ o. o >>= (λ x. returns (structure x)) >>= (λ w. returns (pointer w))) e, secret)
