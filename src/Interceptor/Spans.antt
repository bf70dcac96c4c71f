-- ===== src/Interceptor/Spans.antt =====
-- Spans as the interceptors see them, the end that the interceptors share, and the helper
-- GetLessThenLimitStr of common/utils/utils.go.
use panda_go.Prelude.{
  ℕ, ◌+◌, ◌≤◌, Bool, true, false, List, [], ◌∷◌, ◌++◌, arith, if◌then◌else◌, ltb, leb, length, take,
  length-take,
}
use panda_go.Go.Text.{GoString, lit}
use panda_go.Go.Int.{ℤ}
use panda_go.Go.Error.{Error}
use panda_go.Go.Outcome.{Outcome, returns, panics}

-- What a tag or a log entry holds.
pub data Entry : Type 0 where
  words : GoString → Entry
  number : ℤ → Entry

pub record Span : Type 0 where
  pub tags : List (GoString × Entry)
  pub logs : List (GoString × Entry)
  pub failed : Bool
  pub finished : ℕ

-- StartSpan
abbrev pub started : Span
started = record { tags = []; logs = []; failed = false; finished = 0 }

abbrev pub set_tag : GoString → Entry → Span → Span
set_tag k v s = record s { tags = s.tags ++ (k, v) ∷ [] }

-- LogKV and LogFields
abbrev pub log_kv : GoString → Entry → Span → Span
log_kv k v s = record s { logs = s.logs ++ (k, v) ∷ [] }

-- ext.Error.Set(span, true)
abbrev pub set_error : Span → Span
set_error s = record s { failed = true }

abbrev pub finish : Span → Span
finish s = record s { finished = s.finished + 1 }

-- The constants of common/interceptor/init.go
abbrev pub grpc_status_code : GoString
grpc_status_code = lit "grpc.status_code"

abbrev pub http_status_code : GoString
http_status_code = lit "http.status_code"

abbrev pub grpc_err_msg : GoString
grpc_err_msg = lit "Grpc_Err_Msg"

abbrev pub panic_err_code : ℕ
panic_err_code = 590

abbrev pub grpc_type : GoString
grpc_type = lit "grpc.type"

abbrev pub http_method : GoString
http_method = lit "http.method"

abbrev pub http_proto : GoString
http_proto = lit "http.proto"

-- GetLessThenLimitStr
unfoldable pub get_less_then_limit_str : GoString → ℕ → GoString
get_less_then_limit_str s limit = if ltb limit (length s) then take limit s else s

-- GetLessThenLimitStr never exceeds its limit.
pub length-get_less_then_limit_str :
    (s : GoString) (limit : ℕ) → length (get_less_then_limit_str s limit) ≤ limit
unfolding get_less_then_limit_str
length-get_less_then_limit_str s limit = ground (arith, length-take limit s)

-- s[:n], which panics beyond the end
unfoldable pub slice_to : ℕ → GoString → Outcome GoString
slice_to n s = if leb n (length s) then returns (take n s) else panics

-- What is logged of an error: the slice err.Error()[:800] when the text is longer than 200 bytes
unfoldable pub error_words : Error → Outcome GoString
error_words e = if ltb 200 (length e) then slice_to 800 e else returns e
