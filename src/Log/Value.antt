-- ===== src/Log/Value.antt =====
-- Go values as reflection sees them, for DeepCopyV2 and for package desensitization. Not told apart are
-- two pointers to one object. Where DeepCopyV2 sets a variable of an interface type, this type has no
-- methods, so that it takes any copy.
use panda_go.Prelude.{ℕ, Bool}
use panda_go.Go.Text.{GoString}
use panda_go.Log.Mask.{Text}

mutual
  -- `plain` is of a kind that DeepCopyV2 returns as it is, other than a string: a bool, an int or a
  -- float. `bare` is of a kind that it has no case for: a uint, a channel, a function. `named` is a
  -- string of another type than string, and `boxed` a variable of an interface type with what it holds.
  pub data Value : Type 0 where
    nil_interface : Value
    nil_pointer : Value
    plain : ℕ → Value
    bare : ℕ → Value
    text : Text → Value
    named : Text → Value
    boxed : Value → Value
    pointer : Value → Value
    structure : Fields → Value
    array : Values → Value
    slice : Values → Value
    mapping : Values → Values → Value

  -- The fields of a struct: the name, whether it is exported, the value
  pub data Fields : Type 0 where
    no_field : Fields
    field : GoString → Bool → Value → Fields → Fields

  pub data Values : Type 0 where
    no_value : Values
    value : Value → Values → Values
