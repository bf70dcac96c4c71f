-- ===== src/Utils/Trace.antt =====
-- Trace identifiers in headers: B3TraceIdToUberTraceId, GetB3CombineTraceIdAndUberTraceId and
-- GetTraceIdFromCtx of common/utils/utils.go. A header map is the list of its entries in the order in
-- which the loop meets them.
pub mod Combined
pub mod Headers
use panda_go.Prelude.{Option, none, some, [], ◌∷◌, ◌++◌, List, if◌then◌else◌}
use panda_go.Go.Text.{GoString, lit, is_empty, equal_fold, split}
use panda_go.Go.Map.{GoMap}

abbrev pub Headers : Type 0
Headers = GoMap GoString (List GoString)

abbrev pub or_default : GoString → GoString → GoString
or_default [] d = d
or_default (c ∷ s) d = c ∷ s

-- B3TraceIdToUberTraceId
unfoldable pub b3_trace_id_to_uber_trace_id : GoString → GoString → GoString → GoString → GoString
b3_trace_id_to_uber_trace_id trace_id span_id parent_span_id flag =
    if is_empty trace_id
    then []
    else trace_id
      ++ (b':' ∷ []
          ++ (or_default span_id (lit "0000000000000000")
              ++ (b':' ∷ []
                  ++ (or_default parent_span_id (lit "0000000000000000")
                      ++ (b':' ∷ [] ++ or_default flag (lit "0"))))))

-- The variables of GetB3CombineTraceIdAndUberTraceId
pub record Found : Type 0 where
  pub trace_id : GoString
  pub span_id : GoString
  pub parent_span_id : GoString
  pub flag : GoString
  pub uber_trace_id : GoString

-- One round of its loop: a header with a value `v`
unfoldable pub note_header : GoString → GoString → Found → Found
note_header key v s =
    if equal_fold key (lit "x-b3-traceid")
    then record s { trace_id = v }
    else if equal_fold key (lit "x-b3-spanid")
    then record s { span_id = v }
    else if equal_fold key (lit "x-b3-parentspanid")
    then record s { parent_span_id = v }
    else if equal_fold key (lit "x-b3-sampled")
    then record s { flag = v }
    else if equal_fold key (lit "uber-trace-id")
    then record s { uber_trace_id = v }
    else s

unfoldable pub note_headers : Headers → Found → Found
unfolding note_header
note_headers [] s = s
note_headers ((key, []) ∷ rest) s = note_headers rest s
note_headers ((key, v ∷ vs) ∷ rest) s = note_headers rest (note_header key v s)

abbrev pub nothing_found : Found
nothing_found = record {
  trace_id = [];
  span_id = [];
  parent_span_id = [];
  flag = [];
  uber_trace_id = [];
}

-- GetB3CombineTraceIdAndUberTraceId
unfoldable pub get_b3_combine_trace_id_and_uber_trace_id : Headers → GoString × GoString
get_b3_combine_trace_id_and_uber_trace_id mp =
    let s = note_headers mp nothing_found in
    (
      if is_empty s.trace_id
          then []
          else b3_trace_id_to_uber_trace_id s.trace_id s.span_id s.parent_span_id s.flag,
      s.uber_trace_id,
    )

abbrev pub first_part : List GoString → Option GoString
first_part [] = none
first_part (p ∷ ps) = some p

-- The trace that one header names to GetTraceIdFromCtx, if it names one
unfoldable pub named_trace : GoString → List GoString → Option GoString
named_trace key [] = none
named_trace key (v ∷ vs) =
    if equal_fold key (lit "x-b3-traceid")
    then some v
    else if equal_fold key (lit "uber-trace-id")
    then first_part (split v b':')
    else none

unfoldable pub scan_headers : Headers → GoString
scan_headers [] = []
scan_headers ((key, values) ∷ rest) =
    let later = scan_headers rest in elim (named_trace key values) [ none ↦ later | some t ↦ t ]

-- GetTraceIdFromCtx: `jaeger` is the trace of the context's span, if that is a Jaeger span
unfoldable pub get_trace_id_from_ctx : Option GoString → Headers → GoString
get_trace_id_from_ctx (some t) md = t
get_trace_id_from_ctx none md = scan_headers md
