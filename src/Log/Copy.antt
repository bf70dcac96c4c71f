-- ===== src/Log/Copy.antt =====
-- DeepCopyV2 of common/utils/utils.go.
use panda_go.Prelude.{true, false, []}
use panda_go.Go.Outcome.{Outcome, returns, panics, ◌>>=◌}
use panda_go.Log.Value.{
  Value, nil_interface, nil_pointer, plain, bare, text, named, boxed, pointer, structure, array,
  slice, mapping, Fields, no_field, field, Values, no_value, value,
}

-- The zero value of the type of a value: a field of a fresh struct holds it.
unfoldable mutual
  pub zero_of : Value → Value
  zero_of nil_interface = nil_interface
  zero_of nil_pointer = nil_pointer
  zero_of (plain n) = plain 0
  zero_of (bare n) = bare 0
  zero_of (text s) = text []
  zero_of (named s) = named []
  zero_of (boxed v) = nil_interface
  zero_of (pointer v) = nil_pointer
  zero_of (structure fs) = structure (zero_fields fs)
  zero_of (array vs) = array (zero_values vs)
  zero_of (slice vs) = slice no_value
  zero_of (mapping ks vs) = mapping no_value no_value

  pub zero_fields : Fields → Fields
  zero_fields no_field = no_field
  zero_fields (field name exported v fs) = field name exported (zero_of v) (zero_fields fs)

  pub zero_values : Values → Values
  zero_values no_value = no_value
  zero_values (value v vs) = value (zero_of v) (zero_values vs)

-- What `out.Field(i).Set` makes of the copy of a field that is a pointer. The copy of a pointer to a
-- string or a plain value is that pointer; of any other it is no pointer of the field's type, so that
-- Set panics, but for the copy nil, which is skipped.
abbrev pub set_pointer : Value → Outcome Value
set_pointer (plain n) = returns (pointer (plain n))
set_pointer (text s) = returns (pointer (text s))
set_pointer (named s) = returns (pointer (named s))
set_pointer (boxed v) = returns nil_pointer
set_pointer nil_interface = returns nil_pointer
set_pointer v = panics

-- The slice case: `out.Field(i)` panics on a slice, which is out
abbrev pub copy_slice : Values → Outcome Value
copy_slice no_value = returns (slice no_value)
copy_slice (value v vs) = panics

-- The map case: no copy is a reflect.Value, as the type assertion wants
abbrev pub copy_mapping : Values → Outcome Value
copy_mapping no_value = returns (mapping no_value no_value)
copy_mapping (value v vs) = panics

-- What a variable of an interface type holds once the copy has been set: nil is skipped.
abbrev pub box : Value → Value
box nil_interface = nil_interface
box v = boxed v

unfoldable mutual
  -- DeepCopyV2 of a field and its Set
  pub copy_field : Value → Outcome Value
  copy_field nil_interface = returns nil_interface
  copy_field nil_pointer = panics
  copy_field (plain n) = returns (plain n)
  copy_field (bare n) = returns (bare 0)
  copy_field (text s) = returns (text s)
  copy_field (named s) = returns (named s)
  copy_field (boxed v) = deep_copy_v2 v >>= (λ w. returns (box w))
  copy_field (pointer v) = set_pointer v
  copy_field (structure fs) = copy_fields fs >>= (λ gs. returns (structure gs))
  copy_field (array vs) = panics
  copy_field (slice vs) = copy_slice vs
  copy_field (mapping ks vs) = copy_mapping ks

  -- The loop over the fields of a struct, which leaves alone those that cannot be set
  pub copy_fields : Fields → Outcome Fields
  copy_fields no_field = returns no_field
  copy_fields (field name true v fs) =
      copy_field v >>= (λ w. copy_fields fs >>= (λ gs. returns (field name true w gs)))
  copy_fields (field name false v fs) =
      copy_fields fs >>= (λ gs. returns (field name false (zero_of v) gs))

  -- The copy of what a pointer points to: a struct, a slice or a map comes back as itself, not as a
  -- pointer
  pub copy_target : Value → Outcome Value
  copy_target (plain n) = returns (pointer (plain n))
  copy_target (text s) = returns (pointer (text s))
  copy_target (named s) = returns (pointer (named s))
  copy_target (bare n) = returns (bare 0)
  copy_target nil_interface = returns nil_interface
  copy_target (boxed v) = returns nil_interface
  copy_target nil_pointer = returns nil_pointer
  copy_target (pointer v) = returns nil_pointer
  copy_target (structure fs) = copy_fields fs >>= (λ gs. returns (structure gs))
  copy_target (array vs) = panics
  copy_target (slice vs) = copy_slice vs
  copy_target (mapping ks vs) = copy_mapping ks

  -- DeepCopyV2, of what its argument holds
  pub deep_copy_v2 : Value → Outcome Value
  deep_copy_v2 nil_interface = returns nil_interface
  deep_copy_v2 nil_pointer = panics
  deep_copy_v2 (plain n) = returns (plain n)
  deep_copy_v2 (bare n) = returns (bare 0)
  deep_copy_v2 (text s) = returns (text s)
  deep_copy_v2 (named s) = returns (named s)
  deep_copy_v2 (boxed v) = deep_copy_v2 v
  deep_copy_v2 (pointer v) = copy_target v
  deep_copy_v2 (structure fs) = copy_fields fs >>= (λ gs. returns (structure gs))
  deep_copy_v2 (array vs) = panics
  deep_copy_v2 (slice vs) = copy_slice vs
  deep_copy_v2 (mapping ks vs) = copy_mapping ks
