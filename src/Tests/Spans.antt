-- ===== src/Tests/Spans.antt =====
-- Calls through the interceptors, with an error text of 300 bytes, and a request whose handler panics.
use panda_go.Prelude.{ℕ, ◌+◌, true, none, some, [], replicate}
use panda_go.Go.Text.{lit}
use panda_go.Go.Outcome.{returns}
use panda_go.Interceptor.Server.{Surroundings, Handler, jaeger_grpc_unary_server_interceptor}
use panda_go.Interceptor.Passing.{Passes, unary_server-Passes}
use panda_go.Interceptor.Http.{Gin, Call, jaeger_http_server_interceptor}
use panda_go.Interceptor.Http.Report.{Reports, http_server-Reports}

abbrev env : Surroundings
env = record {
  reader = record { status_code = λ e. some 5; json_code = λ e. none };
  status_error = λ c s. s;
  param = lit "request";
  stack = replicate 900 b's';
}

-- Answers the number 4 with a long error.
abbrev handler : Handler ℕ ℕ
handler w = (returns (some 4, some (replicate 300 b'e')), w + 1)

unary_server-Passes_example :
    Passes env (handler 0) (jaeger_grpc_unary_server_interceptor env handler 0)
unary_server-Passes_example = unary_server-Passes env handler 0

-- A writer is its status.
abbrev gin : Gin ℕ
gin = record { status = λ w. w; json = λ c s w. c; copied_body = λ w. none }

abbrev call : Call
call = record {
  method = lit "GET";
  proto = lit "HTTP/1.1";
  kv_param = [];
  body_param = lit "body";
  stack = lit "goroutine 1";
}

http_server-Reports_example :
    Reports gin call (true, 200) (jaeger_http_server_interceptor gin call (λ w. (true, w)) 200)
http_server-Reports_example = http_server-Reports gin call (λ w. (true, w)) 200
