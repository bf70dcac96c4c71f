-- ===== src/Interceptor/Http.antt =====
-- JaegerHTTPServerInterceptor of common/interceptor/http-server-interceptor/interceptor.go, and
-- GetRequestBodyParamStr of common/utils/utils.go, which it calls. `W` is gin's response writer and what
-- the handlers change with it.
pub mod Report
use panda_go.Prelude.{
  ℕ, Bool, true, false, not, Option, none, some, ◌∷◌, [], if◌then◌else◌, nat_beq,
}
use panda_go.Go.Text.{GoString, lit, is_empty}
use panda_go.Go.Int.{ℤ, pos}
use panda_go.Go.Error.{Result, ok, err}
use panda_go.Interceptor.Spans.{
  Span, words, number, started, set_tag, log_kv, set_error, finish, http_status_code, http_method,
  http_proto, panic_err_code, get_less_then_limit_str,
}

-- gin: the status of a writer, c.JSON, and the body that a responseBodyWriter has copied, which is
-- `none` for a writer of another type
pub record Gin (W : Type 0) : Type 0 where
  pub status : W → ℕ
  pub json : ℕ → GoString → W → W
  pub copied_body : W → Option GoString

-- What the interceptor reads of the request, and debug.Stack
pub record Call : Type 0 where
  pub method : GoString
  pub proto : GoString
  pub kv_param : GoString
  pub body_param : GoString
  pub stack : GoString

abbrev pub log_unless_empty : GoString → GoString → Span → Span
log_unless_empty k v s = if is_empty v then s else log_kv k (words v) s

abbrev pub log_copied : Option GoString → Span → Span
log_copied none s = s
log_copied (some b) s = log_kv (lit "err_msg") (words b) s

-- The span when c.Next() is called
unfoldable pub before_next : Call → Span
before_next call = log_unless_empty (lit "Body_Param") call.body_param (
    log_unless_empty (lit "KV_Param") call.kv_param
      (set_tag http_proto (words call.proto) (set_tag http_method (words call.method) started)))

module _ {W : Type 0} (gin : Gin W) (call : Call) where
  -- The branch of the deferred function for a panic
  unfoldable pub answer_panic : Bool → Span × W → Span × W
  answer_panic panicked (s, w) =
      let text = get_less_then_limit_str call.stack 800 in
      if panicked
      then (log_kv (lit "Panic") (words text) (set_error s), gin.json panic_err_code text w)
      else (s, w)

  -- What follows it
  unfoldable pub report_status : Span × W → Span × W
  report_status (s, w) =
      let t =
        if nat_beq (gin.status w) 200 then s else log_copied (gin.copied_body w) (set_error s) in
      (finish (set_tag http_status_code (number (pos (gin.status w))) t), w)

  -- The handler of JaegerHTTPServerInterceptor; `next` is c.Next(), and says whether it panicked
  unfoldable pub jaeger_http_server_interceptor : (W → Bool × W) → W → Span × W
  jaeger_http_server_interceptor next w =
      let (panicked, w') = next w in report_status (answer_panic panicked (before_next call, w'))

-- io.ReadAll on a request's body, and io.NopCloser of a buffer
pub record Bodies (B : Type 0) : Type 0 where
  pub read_all : B → Result GoString
  pub of_bytes : GoString → B

-- GetRequestBodyParamStr: its result, and the request's body afterwards
unfoldable pub get_request_body_param_str : {B : Type 0} → Bodies B → B → GoString × B
get_request_body_param_str lib b = elim (lib.read_all b) [
  | ok content ↦ (content, lib.of_bytes content)
  | err e ↦ ([], b)
]
