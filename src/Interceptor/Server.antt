-- ===== src/Interceptor/Server.antt =====
-- The gRPC interceptors: common/interceptor/grpc-server-interceptor/interceptor.go and
-- JaegerGrpcUnaryClientInterceptor of common/interceptor/grpc-client-interceptor/interceptor.go.
-- A handler reads and changes an outside state of type W, and may panic; `R` is the type of responses.
use panda_go.Prelude.{ℕ, Bool, true, false, Option, none, some, if◌then◌else◌}
use panda_go.Go.Text.{GoString, lit}
use panda_go.Go.Int.{pos}
use panda_go.Go.Error.{Error, MaybeError}
use panda_go.Go.Outcome.{Outcome, returns, panics}
use panda_go.Utils.ErrorCode.{ErrorReader, parse_rpc_error_code}
use panda_go.Interceptor.Spans.{
  Span, words, number, started, set_tag, log_kv, set_error, finish, grpc_status_code, grpc_err_msg,
  grpc_type, panic_err_code, get_less_then_limit_str, error_words,
}

-- What comes from outside: how the text of a status error is made and read, the text of the request,
-- and the stack that debug.Stack gives during a panic
pub record Surroundings : Type 0 where
  pub reader : ErrorReader
  pub status_error : ℕ → GoString → Error
  pub param : GoString
  pub stack : GoString

-- A call that an interceptor wraps: it answers with a response and an error, or panics.
abbrev pub Handler : Type 0 → Type 0 → Type 0
Handler R W = W → Outcome (Option R × MaybeError) × W

-- The named results of an interceptor, and its span.
pub record Frame (R : Type 0) : Type 0 where
  pub resp : Option R
  pub error : MaybeError
  pub span : Span

-- Whether the body of the interceptor has ended by a panic.
pub record Ran (R W : Type 0) : Type 0 where
  pub frame : Frame R
  pub panicked : Bool
  pub world : W

-- What a recovered panic becomes
abbrev pub inner_error : Surroundings → Error
inner_error env = env.status_error panic_err_code (lit "server inner error")

module _ {R W : Type 0} (env : Surroundings) where
  -- span.LogKV(GRPC_ERROR_MSG, …)
  abbrev pub log_error : Outcome GoString → Frame R → W → Ran R W
  log_error panics f w = record { frame = f; panicked = true; world = w }
  log_error (returns s) f w = record {
    frame = record f { span = log_kv grpc_err_msg (words s) f.span };
    panicked = false;
    world = w;
  }

  -- The branch `err != nil`; `mark` is ext.Error.Set where the source has it
  unfoldable pub note_error : (Span → Span) → Error → Frame R → W → Ran R W
  note_error mark e f w =
      log_error (error_words e)
        (record f {
          span =
              set_tag grpc_status_code (number (parse_rpc_error_code env.reader e)) (mark f.span);
        })
        w

  -- What follows the call
  unfoldable pub after_call : (Span → Span) → Span → Outcome (Option R × MaybeError) × W → Ran R W
  after_call mark span (panics, w) = record {
    frame = record { resp = none; error = none; span = span };
    panicked = true;
    world = w;
  }
  after_call mark span (returns (r, some e), w) =
      note_error mark e (record { resp = r; error = some e; span = span }) w
  after_call mark span (returns (r, none), w) = record {
    frame = record {
      resp = r;
      error = none;
      span = set_tag grpc_status_code (number (pos 0)) span;
    };
    panicked = false;
    world = w;
  }

  -- The deferred function
  unfoldable pub recovered : (Span → Span) → Ran R W → Frame R × W
  recovered mark r =
      if r.panicked
      then (
        record r.frame {
          error = some (inner_error env);
          span = finish (
              log_kv (lit "Panic") (words (get_less_then_limit_str env.stack 800))
                (mark r.frame.span));
        },
        r.world,
      )
      else (record r.frame { span = finish r.frame.span }, r.world)

  -- JaegerGrpcUnaryServerInterceptor
  unfoldable pub jaeger_grpc_unary_server_interceptor : Handler R W → W → Frame R × W
  jaeger_grpc_unary_server_interceptor handler w = recovered set_error (
      after_call set_error
        (set_tag grpc_type (words (lit "server_unary"))
          (log_kv (lit "Param") (words env.param) started))
        (handler w))

  -- JaegerGrpcStreamServerInterceptor, which does not mark the span as failed; the handler is called
  -- after SetHeader and SetTrailer
  unfoldable pub jaeger_grpc_stream_server_interceptor : (W → W) → Handler R W → W → Frame R × W
  jaeger_grpc_stream_server_interceptor set_headers handler w =
      recovered (λ s. s)
        (after_call (λ s. s) (set_tag grpc_type (words (lit "server_stream")) started)
          (handler (set_headers w)))

  -- JaegerGrpcUnaryClientInterceptor: the deferred function does not mark the span
  unfoldable pub jaeger_grpc_unary_client_interceptor : Handler R W → W → Frame R × W
  jaeger_grpc_unary_client_interceptor invoker w =
      recovered (λ s. s)
        (after_call set_error
          (log_kv (lit "Param") (words env.param)
            (set_tag grpc_type (words (lit "client_unary")) started))
          (invoker w))
