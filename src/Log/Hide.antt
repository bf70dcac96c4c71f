-- ===== src/Log/Hide.antt =====
-- Package common/utils/desensitization: FilterField and what it calls.
use panda_go.Prelude.{
  ℕ, Bool, true, false, ◌&&◌, Option, none, some, List, [], ◌∷◌, if◌then◌else◌, nat_beq, replicate,
  length, nat_eq, list_eq,
}
use panda_go.Go.Text.{GoString, lit}
use panda_go.Go.Map.{GoMap, load, store}
use panda_go.Go.Outcome.{Outcome, returns, panics, ◌>>=◌}
use panda_go.Log.Mask.{Text, byte_len, mask_phone}
use panda_go.Log.Value.{
  Value, nil_interface, nil_pointer, plain, bare, text, named, boxed, pointer, structure, array,
  slice, mapping, Fields, no_field, field, Values, no_value, value,
}
use panda_go.Log.Copy.{deep_copy_v2}

-- dsRule
pub record DsRule : Type 0 where
  pub affect_fields : List GoString
  pub transform : Text → Text

-- dsRules
abbrev pub ds_rules : List DsRule
ds_rules =
    record {
      affect_fields = lit "password" ∷ lit "Password" ∷ [];
      transform = λ raw. replicate (byte_len raw) b'*';
    }
    ∷ record { affect_fields = lit "phone" ∷ lit "Phone" ∷ []; transform = mask_phone }
    ∷ []

unfoldable pub enter_fields : List GoString → DsRule → GoMap GoString DsRule → GoMap GoString DsRule
enter_fields [] r m = m
enter_fields (f ∷ fs) r m = enter_fields fs r (store f r m)

-- init, which fills dsRuleMap
unfoldable pub enter_rules : List DsRule → GoMap GoString DsRule → GoMap GoString DsRule
enter_rules [] m = m
enter_rules (r ∷ rs) m = enter_rules rs (enter_fields r.affect_fields r m)

-- dsRuleMap[key]
unfoldable pub rule_of : GoString → Option DsRule
unfolding enter_rules enter_fields load store lit
rule_of key = load key (enter_rules ds_rules [])

-- The string of a field or a log entry with this key, after the rule, if there is one
unfoldable pub apply_rule : GoString → Text → Text
apply_rule key s = elim (rule_of key) [ none ↦ s | some r ↦ r.transform s ]

-- f.Set of a plain string panics on a field of another string type.
abbrev pub set_named : GoString → Text → Outcome Value
set_named name s = elim (rule_of name) [ none ↦ returns (named s) | some r ↦ panics ]

unfoldable mutual
  -- findAndTransform after its reflect.Indirect; `addressable` says that fields can be set. An interface
  -- is of none of the kinds that the switch has a case for, whatever it holds.
  pub transform_target : Bool → Value → Outcome Value
  transform_target addressable (structure fs) =
      transform_fields addressable fs >>= (λ gs. returns (structure gs))
  transform_target addressable (slice vs) = transform_slice vs >>= (λ ws. returns (slice ws))
  transform_target addressable nil_interface = returns nil_interface
  transform_target addressable nil_pointer = returns nil_pointer
  transform_target addressable (plain n) = returns (plain n)
  transform_target addressable (bare n) = returns (bare n)
  transform_target addressable (text s) = returns (text s)
  transform_target addressable (named s) = returns (named s)
  transform_target addressable (boxed v) = returns (boxed v)
  transform_target addressable (pointer v) = returns (pointer v)
  transform_target addressable (array vs) = returns (array vs)
  transform_target addressable (mapping ks vs) = returns (mapping ks vs)

  -- findAndTransform: what a pointer points to can be set
  pub find_and_transform : Bool → Value → Outcome Value
  find_and_transform addressable (pointer v) =
      transform_target true v >>= (λ w. returns (pointer w))
  find_and_transform addressable (structure fs) =
      transform_fields addressable fs >>= (λ gs. returns (structure gs))
  find_and_transform addressable (slice vs) = transform_slice vs >>= (λ ws. returns (slice ws))
  find_and_transform addressable nil_interface = returns nil_interface
  find_and_transform addressable nil_pointer = returns nil_pointer
  find_and_transform addressable (plain n) = returns (plain n)
  find_and_transform addressable (bare n) = returns (bare n)
  find_and_transform addressable (text s) = returns (text s)
  find_and_transform addressable (named s) = returns (named s)
  find_and_transform addressable (boxed v) = returns (boxed v)
  find_and_transform addressable (array vs) = returns (array vs)
  find_and_transform addressable (mapping ks vs) = returns (mapping ks vs)

  -- The switch on the kind of a field that can be set
  pub transform_settable : GoString → Value → Outcome Value
  transform_settable name (structure fs) =
      transform_fields true fs >>= (λ gs. returns (structure gs))
  transform_settable name (slice vs) = transform_slice vs >>= (λ ws. returns (slice ws))
  transform_settable name (text s) = returns (text (apply_rule name s))
  transform_settable name (named s) = set_named name s
  transform_settable name nil_interface = returns nil_interface
  transform_settable name nil_pointer = returns nil_pointer
  transform_settable name (plain n) = returns (plain n)
  transform_settable name (bare n) = returns (bare n)
  transform_settable name (boxed v) = returns (boxed v)
  transform_settable name (pointer v) = returns (pointer v)
  transform_settable name (array vs) = returns (array vs)
  transform_settable name (mapping ks vs) = returns (mapping ks vs)

  -- An exported field: through a pointer, or in place when the struct is addressable
  pub transform_field : Bool → GoString → Value → Outcome Value
  transform_field addressable name (pointer v) =
      transform_settable name v >>= (λ w. returns (pointer w))
  transform_field true name (text s) = returns (text (apply_rule name s))
  transform_field true name (named s) = set_named name s
  transform_field true name (structure fs) =
      transform_fields true fs >>= (λ gs. returns (structure gs))
  transform_field true name (slice vs) = transform_slice vs >>= (λ ws. returns (slice ws))
  transform_field true name nil_interface = returns nil_interface
  transform_field true name nil_pointer = returns nil_pointer
  transform_field true name (plain n) = returns (plain n)
  transform_field true name (bare n) = returns (bare n)
  transform_field true name (boxed v) = returns (boxed v)
  transform_field true name (array vs) = returns (array vs)
  transform_field true name (mapping ks vs) = returns (mapping ks vs)
  transform_field false name v = returns v

  pub transform_fields : Bool → Fields → Outcome Fields
  transform_fields addressable no_field = returns no_field
  transform_fields addressable (field name true v fs) =
      transform_field addressable name v
      >>= (λ w. transform_fields addressable fs >>= (λ gs. returns (field name true w gs)))
  transform_fields addressable (field name false v fs) =
      transform_fields addressable fs >>= (λ gs. returns (field name false v gs))

  -- transformSlice: the elements of a slice can be set
  pub transform_slice : Values → Outcome Values
  transform_slice no_value = returns no_value
  transform_slice (value v vs) =
      find_and_transform true v >>= (λ w. transform_slice vs >>= (λ ws. returns (value w ws)))

-- reflect.Value.IsZero
unfoldable mutual
  pub is_zero : Value → Bool
  is_zero nil_interface = true
  is_zero nil_pointer = true
  is_zero (plain n) = nat_beq n 0
  is_zero (bare n) = nat_beq n 0
  is_zero (text s) = nat_beq (length s) 0
  is_zero (named s) = nat_beq (length s) 0
  is_zero (boxed v) = false
  is_zero (pointer v) = false
  is_zero (structure fs) = zero_fields fs
  is_zero (array vs) = zero_values vs
  is_zero (slice vs) = no_values vs
  is_zero (mapping ks vs) = no_values ks

  pub zero_fields : Fields → Bool
  zero_fields no_field = true
  zero_fields (field name exported v fs) = is_zero v && zero_fields fs

  pub zero_values : Values → Bool
  zero_values no_value = true
  zero_values (value v vs) = is_zero v && zero_values vs

  pub no_values : Values → Bool
  no_values no_value = true
  no_values (value v vs) = false

-- reflect.Indirect(…).Type().Kind() == reflect.Struct
abbrev pub points_to_struct : Value → Bool
points_to_struct (structure fs) = true
points_to_struct (pointer (structure fs)) = true
points_to_struct v = false

-- desensitization; `is_proto` says that the value is a proto.Message, of which proto.Clone is an equal one
unfoldable pub desensitization : Bool → Value → Outcome Value
desensitization is_proto v =
    if is_zero v
    then returns v
    else if is_proto
    then find_and_transform false v
    else if points_to_struct v
    then deep_copy_v2 v >>= (λ w. find_and_transform false w)
    else returns v

-- zap.Field by its type: StringType, ReflectType or StringerType (with whether the value is a
-- proto.Message), any other
pub data Content : Type 0 where
  string_field : Text → Content
  reflect_field : Bool → Value → Content
  other_field : ℕ → Content

pub record ZapField : Type 0 where
  pub key : GoString
  pub content : Content

module _ (zap_any : Bool → Value → Content) where
  abbrev pub with_value : ZapField → Bool → Outcome Value → Outcome ZapField
  with_value f is_proto panics = panics
  with_value f is_proto (returns v) = returns (record f { content = zap_any is_proto v })

  -- FilterField; `zap_any` is the content that zap.Any chooses for a value, by its type.
  unfoldable pub filter_content : ZapField → Content → Outcome ZapField
  filter_content f (string_field s) =
      returns (record f { content = string_field (apply_rule f.key s) })
  filter_content f (reflect_field is_proto nil_interface) = returns f
  filter_content f (reflect_field is_proto v) = with_value f is_proto (desensitization is_proto v)
  filter_content f (other_field n) = returns f

  unfoldable pub filter_field : ZapField → Outcome ZapField
  filter_field f = filter_content f f.content
