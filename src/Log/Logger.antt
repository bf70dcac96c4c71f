-- ===== src/Log/Logger.antt =====
-- The functions of common/log/logger.go: SetLevel, extractCtxInfo, doLog and doSugaredLog. What zap
-- does with a call is outside; the calls that it gets are recorded in order.
use panda_go.Log.Value.{Value}
use panda_go.Prelude.{Bool, Option, none, some, List, [], ◌∷◌, ◌++◌, nat_eq, list_eq}
use panda_go.Go.Text.{GoString, lit}
use panda_go.Go.Map.{GoMap, load}
use panda_go.Go.Error.{Error, MaybeError}
use panda_go.Go.Outcome.{Outcome, returns, ◌>>=◌}
use panda_go.Log.Mask.{Text}
use panda_go.Log.Hide.{ZapField, Content, string_field, filter_field}

pub data ZapLevel : Type 0 where
  debug_level : ZapLevel
  info_level : ZapLevel
  warn_level : ZapLevel
  error_level : ZapLevel
  dpanic_level : ZapLevel
  panic_level : ZapLevel
  fatal_level : ZapLevel

-- lowercaseStr2LevelMap
abbrev pub lowercase_str2_level_map : GoMap GoString ZapLevel
lowercase_str2_level_map =
    (lit "debug", debug_level)
    ∷ (lit "info", info_level)
    ∷ (lit "warn", warn_level)
    ∷ (lit "error", error_level)
    ∷ (lit "dpanic", dpanic_level)
    ∷ (lit "panic", panic_level)
    ∷ (lit "fatal", fatal_level)
    ∷ []

-- The functions of the package by the level that they pass to doLog, whose logFuncMap has the method
-- of zap.Logger of that name.
pub data LogLevel : Type 0 where
  debug : LogLevel
  info : LogLevel
  warn : LogLevel
  error : LogLevel
  panic : LogLevel
  fatal : LogLevel

-- One call of a method of zap.Logger
pub record Entry : Type 0 where
  pub log_level : LogLevel
  pub msg : GoString
  pub fields : List ZapField

pub record Logger : Type 0 where
  pub level : ZapLevel
  pub entries : List Entry

abbrev pub change_level_fail : Error
change_level_fail = lit "[logger] change level fail"

-- SetLevel, without the line that it logs itself
unfoldable pub set_level : GoString → Logger → MaybeError × Logger
unfolding load
set_level name l = elim (load name lowercase_str2_level_map) [
  | some v ↦ (none, record l { level = v })
  | none ↦ (some change_level_fail, record l { level = info_level })
]

-- What a context gives to the log: the value under "user_id", if there is one, and the trace id, which
-- may be empty
pub record LogContext : Type 0 where
  pub user_id : Option Content
  pub trace_id : Text

abbrev pub with_user : Option Content → List ZapField → List ZapField
with_user none fields = fields
with_user (some v) fields = fields ++ record { key = lit "user_id"; content = v } ∷ []

abbrev pub with_trace : Text → List ZapField → List ZapField
with_trace [] fields = fields
with_trace (c ∷ s) fields =
    fields ++ record { key = lit "trace_id"; content = string_field (c ∷ s) } ∷ []

-- extractCtxInfo
unfoldable pub extract_ctx_info : LogContext → List ZapField → List ZapField
extract_ctx_info ctx fields = with_trace ctx.trace_id (with_user ctx.user_id fields)

module _ (zap_any : Bool → Value → Content) where
  -- The loop of doLog
  unfoldable pub filter_fields : List ZapField → Outcome (List ZapField)
  filter_fields [] = returns []
  filter_fields (f ∷ fs) =
      filter_field zap_any f >>= (λ g. filter_fields fs >>= (λ gs. returns (g ∷ gs)))

  -- doLog
  unfoldable pub do_log : LogContext → LogLevel → GoString → List ZapField → Logger → Outcome Logger
  do_log ctx level msg fields l = filter_fields (extract_ctx_info ctx fields) >>= (λ fs.
      returns (record l {
        entries = l.entries ++ record { log_level = level; msg = msg; fields = fs } ∷ [];
      }))

-- init: the level of a new logger
abbrev pub new_logger : Logger
new_logger = record { level = info_level; entries = [] }

-- Infof, Warnf, Errorf, Debugf, Panicf and Fatalf by their levels, and doSugaredLog: `format` is
-- fmt.Sprintf on the arguments as zap's sugared logger calls it. The context is not read.
unfoldable pub do_sugared_log :
    {A : Type 0} → (GoString → List A → GoString) → LogLevel → GoString → List A → Logger → Logger
do_sugared_log format level template args l = record l {
  entries = l.entries ++ record { log_level = level; msg = format template args; fields = [] } ∷ [];
}
