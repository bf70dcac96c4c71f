-- ===== src/Utils/Trace/Headers.antt =====
-- What the loops over the headers find, whatever the order of the headers.
use panda_go.Prelude.{
  ◌≡◌, refl, ap, true, false, Bool, Option, none, some, Option-cases, inl, inr, [], ◌∷◌, map, arith,
  ==_iff, nat_eq, list_eq, list_beq, ◌==◌, if◌then◌else◌,
}
use panda_go.Go.Text.{GoString, lit, equal_fold, to_lower, is_empty}
use panda_go.Utils.Trace.{
  Headers, Found, note_header, note_headers, nothing_found,
  get_b3_combine_trace_id_and_uber_trace_id, b3_trace_id_to_uber_trace_id, named_trace,
  scan_headers, get_trace_id_from_ctx,
}

-- The value of the last header of a given name, in any case of letters, that has a value.
abbrev pub last_value : GoString → Headers → GoString → GoString
last_value name [] d = d
last_value name ((key, []) ∷ rest) d = last_value name rest d
last_value name ((key, v ∷ vs) ∷ rest) d =
    last_value name rest (if equal_fold key name then v else d)

equal_fold_ne :
    (key a b : GoString)
    → (map to_lower a == map to_lower b) ≡ false
    → equal_fold key a ≡ true
    → equal_fold key b ≡ false
unfolding equal_fold
equal_fold_ne key a b ne h = ground (
  arith,
  ==_iff (map to_lower key) (map to_lower a),
  ==_iff (map to_lower key) (map to_lower b),
  ==_iff (map to_lower a) (map to_lower b),
)

trace_or_span :
    (key : GoString)
    → equal_fold key (lit "x-b3-traceid") ≡ true
    → equal_fold key (lit "x-b3-spanid") ≡ false
unfolding lit to_lower list_beq
trace_or_span key = equal_fold_ne key _ _ refl

trace_or_parent :
    (key : GoString)
    → equal_fold key (lit "x-b3-traceid") ≡ true
    → equal_fold key (lit "x-b3-parentspanid") ≡ false
unfolding lit to_lower list_beq
trace_or_parent key = equal_fold_ne key _ _ refl

trace_or_sampled :
    (key : GoString)
    → equal_fold key (lit "x-b3-traceid") ≡ true
    → equal_fold key (lit "x-b3-sampled") ≡ false
unfolding lit to_lower list_beq
trace_or_sampled key = equal_fold_ne key _ _ refl

trace_or_uber :
    (key : GoString)
    → equal_fold key (lit "x-b3-traceid") ≡ true
    → equal_fold key (lit "uber-trace-id") ≡ false
unfolding lit to_lower list_beq
trace_or_uber key = equal_fold_ne key _ _ refl

span_or_parent :
    (key : GoString)
    → equal_fold key (lit "x-b3-spanid") ≡ true
    → equal_fold key (lit "x-b3-parentspanid") ≡ false
unfolding lit to_lower list_beq
span_or_parent key = equal_fold_ne key _ _ refl

span_or_sampled :
    (key : GoString)
    → equal_fold key (lit "x-b3-spanid") ≡ true
    → equal_fold key (lit "x-b3-sampled") ≡ false
unfolding lit to_lower list_beq
span_or_sampled key = equal_fold_ne key _ _ refl

span_or_uber :
    (key : GoString)
    → equal_fold key (lit "x-b3-spanid") ≡ true
    → equal_fold key (lit "uber-trace-id") ≡ false
unfolding lit to_lower list_beq
span_or_uber key = equal_fold_ne key _ _ refl

parent_or_sampled :
    (key : GoString)
    → equal_fold key (lit "x-b3-parentspanid") ≡ true
    → equal_fold key (lit "x-b3-sampled") ≡ false
unfolding lit to_lower list_beq
parent_or_sampled key = equal_fold_ne key _ _ refl

parent_or_uber :
    (key : GoString)
    → equal_fold key (lit "x-b3-parentspanid") ≡ true
    → equal_fold key (lit "uber-trace-id") ≡ false
unfolding lit to_lower list_beq
parent_or_uber key = equal_fold_ne key _ _ refl

sampled_or_uber :
    (key : GoString)
    → equal_fold key (lit "x-b3-sampled") ≡ true
    → equal_fold key (lit "uber-trace-id") ≡ false
unfolding lit to_lower list_beq
sampled_or_uber key = equal_fold_ne key _ _ refl

-- One round sets the field of its header and leaves the others.
abbrev set_if : GoString → GoString → GoString → GoString → GoString
set_if key name v d = if equal_fold key name then v else d

note_header_lem :
    (key v : GoString) (s : Found)
    → note_header key v s ≡ record {
      trace_id = set_if key (lit "x-b3-traceid") v s.trace_id;
      span_id = set_if key (lit "x-b3-spanid") v s.span_id;
      parent_span_id = set_if key (lit "x-b3-parentspanid") v s.parent_span_id;
      flag = set_if key (lit "x-b3-sampled") v s.flag;
      uber_trace_id = set_if key (lit "uber-trace-id") v s.uber_trace_id;
    }
unfolding note_header
note_header_lem key v s = ground (
  arith,
  trace_or_span key,
  trace_or_parent key,
  trace_or_sampled key,
  trace_or_uber key,
  span_or_parent key,
  span_or_sampled key,
  span_or_uber key,
  parent_or_sampled key,
  parent_or_uber key,
  sampled_or_uber key,
)

record FoundLast (mp : Headers) (s t : Found) : Type 0 where
  trace_id : t.trace_id ≡ last_value (lit "x-b3-traceid") mp s.trace_id
  span_id : t.span_id ≡ last_value (lit "x-b3-spanid") mp s.span_id
  parent_span_id : t.parent_span_id ≡ last_value (lit "x-b3-parentspanid") mp s.parent_span_id
  flag : t.flag ≡ last_value (lit "x-b3-sampled") mp s.flag
  uber_trace_id : t.uber_trace_id ≡ last_value (lit "uber-trace-id") mp s.uber_trace_id

note_headers-FoundLast : (mp : Headers) (s : Found) → FoundLast mp s (note_headers mp s)
unfolding note_headers
note_headers-FoundLast [] s = record {
  trace_id = refl;
  span_id = refl;
  parent_span_id = refl;
  flag = refl;
  uber_trace_id = refl;
}
note_headers-FoundLast ((key, []) ∷ rest) s =
    let h = note_headers-FoundLast rest s in
    record {
      trace_id = h.trace_id;
      span_id = h.span_id;
      parent_span_id = h.parent_span_id;
      flag = h.flag;
      uber_trace_id = h.uber_trace_id;
    }
note_headers-FoundLast ((key, v ∷ vs) ∷ rest) s = rw (note_header_lem key v s) (
    let h = note_headers-FoundLast rest _ in
    record {
      trace_id = h.trace_id;
      span_id = h.span_id;
      parent_span_id = h.parent_span_id;
      flag = h.flag;
      uber_trace_id = h.uber_trace_id;
    })

b3_of_found :
    (t a b c : GoString)
    → (if is_empty t then [] else b3_trace_id_to_uber_trace_id t a b c)
      ≡ b3_trace_id_to_uber_trace_id t a b c
unfolding b3_trace_id_to_uber_trace_id
b3_of_found t a b c = ground arith

-- The combined identifier is built from the last header of each of the four names, and the second
-- result is the last "uber-trace-id"; a header of one name never hides one of another.
pub get_b3-last_value :
    (mp : Headers)
    → get_b3_combine_trace_id_and_uber_trace_id mp ≡ (
      b3_trace_id_to_uber_trace_id
          (last_value (lit "x-b3-traceid") mp [])
          (last_value (lit "x-b3-spanid") mp [])
          (last_value (lit "x-b3-parentspanid") mp [])
          (last_value (lit "x-b3-sampled") mp []),
      last_value (lit "uber-trace-id") mp [],
    )
unfolding get_b3_combine_trace_id_and_uber_trace_id
get_b3-last_value mp =
    let h = note_headers-FoundLast mp nothing_found in
    rw (h.trace_id, h.span_id, h.parent_span_id, h.flag, h.uber_trace_id)
      (ap (λ b. (b, last_value (lit "uber-trace-id") mp [])) (b3_of_found _ _ _ _))

-- What a header may name, where all that name a trace name `t`.
abbrev pub AtMost : GoString → Option GoString → Type 0
AtMost t none = Unit
AtMost t (some u) = u ≡ t

abbrev pub NamesOnly : GoString → Headers → Type 0
NamesOnly t [] = Unit
NamesOnly t ((key, values) ∷ rest) = AtMost t (named_trace key values) × NamesOnly t rest

-- Some header names a trace.
abbrev pub names_some : Headers → Bool
names_some [] = false
names_some ((key, values) ∷ rest) = elim (named_trace key values) [
  | none ↦ names_some rest
  | some t ↦ true
]

scan_headers_agreed :
    (t : GoString) (md : Headers)
    → NamesOnly t md
    → scan_headers md ≡ (if names_some md then t else [])
unfolding scan_headers
scan_headers_agreed t [] agreed = refl
scan_headers_agreed t ((key, values) ∷ rest) agreed = elim (Option-cases (named_trace key values)) [
  | inl e ↦ rw (e, scan_headers, names_some) (scan_headers_agreed t rest agreed.1)
  | inr (u, e) ↦ rw (e, scan_headers, names_some) (rw e at agreed.0)
]

-- The trace of a Jaeger span comes first. Without one, headers that agree on the trace give it in
-- whatever order they stand, and headers that name none give the empty text.
pub get_trace_id-agreed :
    (t : GoString) (jaeger : Option GoString) (md : Headers)
    → NamesOnly t md
    → get_trace_id_from_ctx jaeger md
      ≡ elim jaeger [ none ↦ (if names_some md then t else []) | some u ↦ u ]
unfolding get_trace_id_from_ctx
get_trace_id-agreed t none md agreed = scan_headers_agreed t md agreed
get_trace_id-agreed t (some u) md agreed = refl
