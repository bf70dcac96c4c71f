-- ===== src/Log/Logged.antt =====
-- What a call of doLog gives to zap.
use panda_go.Log.Mask.{Text}
use panda_go.Prelude.{◌≡◌, List, [], ◌∷◌, Bool}
use panda_go.Go.Text.{GoString}
use panda_go.Go.Outcome.{Outcome, returns}
use panda_go.Log.Value.{Value, nil_interface}
use panda_go.Log.Hide.{
  ZapField, Content, string_field, reflect_field, other_field, apply_rule, desensitization,
}
use panda_go.Log.Secret.{IsSecret}
use panda_go.Log.Logger.{Logger}

-- What is logged in place of a content under a key: of a string a secret one, of a value what zap.Any
-- makes of its desensitization, and anything else as it is.
abbrev pub Becomes : (Bool → Value → Content) → GoString → Content → Content → Type 0
Becomes zap_any key (string_field s) c =
    (t : Text) × (c ≡ string_field t) × IsSecret key t × (t ≡ apply_rule key s)
Becomes zap_any key (reflect_field is_proto nil_interface) c =
    c ≡ reflect_field is_proto nil_interface
Becomes zap_any key (reflect_field is_proto v) c =
    (w : Value) × (desensitization is_proto v ≡ returns w) × (c ≡ zap_any is_proto w)
Becomes zap_any key (other_field n) c = c ≡ other_field n

abbrev pub Logs : (Bool → Value → Content) → ZapField → ZapField → Type 0
Logs zap_any f g = (g.key ≡ f.key) × Becomes zap_any f.key f.content g.content

-- The fields of an entry, one for each field that is given
abbrev pub AllLogged : (Bool → Value → Content) → List ZapField → List ZapField → Type 0
AllLogged zap_any [] [] = Unit
AllLogged zap_any [] (g ∷ gs) = ⊥
AllLogged zap_any (f ∷ fs) [] = ⊥
AllLogged zap_any (f ∷ fs) (g ∷ gs) = Logs zap_any f g × AllLogged zap_any fs gs
