-- ===== src/Log/Secret.antt =====
-- What it means that the strings of a value are masked, by the names of the rules of package
-- desensitization.
use panda_go.Prelude.{
  ℕ, suc, ◌≤◌, ◌<◌, ◌+◌, ◌≡◌, refl, sym, subst, true, false, some, arith, replicate, length,
  get_elem?, nat_eq, list_eq, list_beq, ◌⊎◌, inl, inr, All, zero,
}
use panda_go.Go.Text.{GoString, lit}
use panda_go.Log.Mask.{Text, byte_len, mask_phone, get_elem?-mask_phone, length-mask_phone}
use panda_go.Log.Value.{
  Value, text, pointer, structure, slice, Fields, no_field, field, Values, no_value, value,
}
use panda_go.Log.Hide.{rule_of, apply_rule}

-- The names of passwords and of phone numbers.
abbrev pub IsPassword : GoString → Type 0
IsPassword name = (name ≡ lit "password") ⊎ (name ≡ lit "Password")

abbrev pub IsPhone : GoString → Type 0
IsPhone name = (name ≡ lit "phone") ⊎ (name ≡ lit "Phone")

-- A password is all asterisks, and a phone number is asterisks but for at most the first three and the
-- last two characters.
pub record IsSecret (name : GoString) (s : Text) : Type 0 where
  pub password : IsPassword name → All (λ c. c ≡ b'*') s
  pub phone : IsPhone name → (j : ℕ) → 3 ≤ j → j + 2 < length s → get_elem? s j ≡ some b'*'

replicate-All : (n c : ℕ) → All (λ d. d ≡ c) (replicate n c)
replicate-All zero c = tt
replicate-All (suc n) c = (refl, replicate-All n c)

masked_middle :
    (s : Text) (j : ℕ)
    → 3 ≤ j
    → j + 2 < length (mask_phone s)
    → get_elem? (mask_phone s) j ≡ some b'*'
masked_middle s j h k = ground (arith, get_elem?-mask_phone s j, length-mask_phone s, h, k)

pub apply_rule-IsSecret : (name : GoString) (s : Text) → IsSecret name (apply_rule name s)
unfolding apply_rule rule_of byte_len list_beq
apply_rule-IsSecret name s = record {
  password = λ p. elim p [
    | inl e ↦
        subst (λ n. All (λ c. c ≡ b'*') (apply_rule n s)) (sym e) (replicate-All (byte_len s) b'*')
    | inr e ↦
        subst (λ n. All (λ c. c ≡ b'*') (apply_rule n s)) (sym e) (replicate-All (byte_len s) b'*')
  ];
  phone = λ p. elim p [
    | inl e ↦
        subst
          (λ n.
            (j : ℕ)
            → 3 ≤ j
            → j + 2 < length (apply_rule n s)
            → get_elem? (apply_rule n s) j ≡ some b'*')
          (sym e) (masked_middle s)
    | inr e ↦
        subst
          (λ n.
            (j : ℕ)
            → 3 ≤ j
            → j + 2 < length (apply_rule n s)
            → get_elem? (apply_rule n s) j ≡ some b'*')
          (sym e) (masked_middle s)
  ];
}

-- Every string that can be reached through exported fields, single pointers and the elements of slices,
-- and that is a field of a struct, is secret under its field's name.
unfoldable mutual
  pub SettableIsSecret : GoString → Value → Type 0
  SettableIsSecret name (text s) = IsSecret name s
  SettableIsSecret name (structure fs) = FieldsAreSecret fs
  SettableIsSecret name (slice vs) = ElementsAreSecret vs
  SettableIsSecret name v = Unit

  pub FieldIsSecret : GoString → Value → Type 0
  FieldIsSecret name (pointer v) = SettableIsSecret name v
  FieldIsSecret name (text s) = IsSecret name s
  FieldIsSecret name (structure fs) = FieldsAreSecret fs
  FieldIsSecret name (slice vs) = ElementsAreSecret vs
  FieldIsSecret name v = Unit

  pub TargetIsSecret : Value → Type 0
  TargetIsSecret (structure fs) = FieldsAreSecret fs
  TargetIsSecret (slice vs) = ElementsAreSecret vs
  TargetIsSecret v = Unit

  pub ElementIsSecret : Value → Type 0
  ElementIsSecret (pointer v) = TargetIsSecret v
  ElementIsSecret (structure fs) = FieldsAreSecret fs
  ElementIsSecret (slice vs) = ElementsAreSecret vs
  ElementIsSecret v = Unit

  pub FieldsAreSecret : Fields → Type 0
  FieldsAreSecret no_field = Unit
  FieldsAreSecret (field name true v fs) = FieldIsSecret name v × FieldsAreSecret fs
  FieldsAreSecret (field name false v fs) = FieldsAreSecret fs

  pub ElementsAreSecret : Values → Type 0
  ElementsAreSecret no_value = Unit
  ElementsAreSecret (value v vs) = ElementIsSecret v × ElementsAreSecret vs
