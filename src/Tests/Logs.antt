-- ===== src/Tests/Logs.antt =====
-- A record with a password and a phone number, logged as a proto.Message and as a plain struct.
use panda_go.Prelude.{Bool, false, ◌≡◌, refl, true, none, List, [], ◌∷◌, nat_eq, list_eq}
use panda_go.Go.Text.{lit}
use panda_go.Go.Outcome.{returns}
use panda_go.Log.Value.{Value, text, plain, pointer, structure, Fields, field, no_field}
use panda_go.Log.Copy.{deep_copy_v2, copy_field, copy_fields}
use panda_go.Log.Hide.{
  ZapField, Content, string_field, reflect_field, desensitization, is_zero, find_and_transform,
  transform_fields, transform_field,
}
use panda_go.Log.Hidden.{shown, shown_value, desensitization-shown}
use panda_go.Log.Secret.{FieldsAreSecret}
use panda_go.Log.Masked.{UnnamedFields, desensitization-secret}
use panda_go.Log.Logger.{LogContext, Logger, info, info_level}

abbrev account : Fields
account = field (lit "Password") true (text (lit "secret")) (
    field (lit "Phone") true (text (lit "12345678901"))
      (field (lit "Age") true (plain 30) no_field))

desensitization-secret_example :
    (gs : Fields) × (desensitization true (pointer (structure account))
      ≡ returns (pointer (structure gs)))
    × FieldsAreSecret gs
unfolding UnnamedFields
desensitization-secret_example = desensitization-secret account (tt, (tt, (tt, tt)))

desensitization-shown_example : shown_value [] (structure account) ≡ shown account
unfolding desensitization is_zero deep_copy_v2 copy_field copy_fields find_and_transform
    transform_fields transform_field lit
desensitization-shown_example = desensitization-shown account [] (structure account) refl

abbrev logger : Logger
logger = record { level = info_level; entries = [] }

abbrev context : LogContext
context = record { user_id = none; trace_id = lit "abc" }

-- zap.Any on a string gives a string field.
abbrev any_content : Bool → Value → Content
any_content is_proto (text s) = string_field s
any_content is_proto v = reflect_field is_proto v

-- A password that is given as a string, and one that is given as a value
abbrev secret_fields : List ZapField
secret_fields =
    record { key = lit "password"; content = string_field (lit "pw") }
    ∷ record { key = lit "password"; content = reflect_field false (text (lit "pw")) }
    ∷ []

abbrev logged : Logger
logged = record logger {
  entries =
      record {
        log_level = info;
        msg = lit "login";
        fields =
            record { key = lit "password"; content = string_field (lit "**") }
            ∷ record { key = lit "password"; content = string_field (lit "pw") }
            ∷ record { key = lit "trace_id"; content = string_field (lit "abc") }
            ∷ [];
      }
      ∷ [];
}
