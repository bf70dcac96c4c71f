-- ===== src/Utils/Contexts.antt =====
-- The functions of common/utils/utils.go on the gRPC metadata of a context. Metadata and contexts are
-- those of google.golang.org/grpc/metadata, known by their operations; a nil MD is `none`.
pub mod Written
pub mod Copied
pub mod Taken
use panda_go.Prelude.{◌++◌, Option, none, some, List, [], ◌∷◌, if◌then◌else◌, ◌≡◌, nat_eq, list_eq}
use panda_go.Go.Text.{GoString, lit, is_empty, equal_fold}
use panda_go.Go.Map.{GoMap, store}
use panda_go.Go.Outcome.{Outcome, returns, panics, ◌>>=◌}
use panda_go.Go.Error.{Error, Result, ok, err, MaybeError}
use panda_go.Utils.Trace.{Headers, get_b3_combine_trace_id_and_uber_trace_id}

-- The operations of the package: `M` is an MD, `C` a context.
pub record Metadata (M C : Type 0) : Type 0 where
  pub empty_md : M
  pub get : GoString → M → List GoString
  pub set : GoString → GoString → M → M
  pub append : GoString → List GoString → M → M
  pub join_pair : M → GoString → GoString → M
  pub entries : M → Headers
  pub incoming : C → Option M
  pub new_incoming : C → M → C
  pub outgoing : C → Option M
  pub new_outgoing : C → M → C
  pub append_outgoing : C → GoString → GoString → C

-- What the package documents of them: a context holds what was put into it, incoming and outgoing
-- metadata are apart, and keys are compared without regard to case.
pub record MetadataLaws {M C : Type 0} (lib : Metadata M C) : Type 0 where
  pub get-empty : (k : GoString) → lib.get k lib.empty_md ≡ []
  pub get-set :
      (k j v : GoString) (m : M)
      → lib.get j (lib.set k v m) ≡ (if equal_fold k j then v ∷ [] else lib.get j m)
  pub get-append :
      (k j : GoString) (vs : List GoString) (m : M)
      → lib.get j (lib.append k vs m) ≡ (if equal_fold k j then lib.get j m ++ vs else lib.get j m)
  pub incoming-new_incoming : (c : C) (m : M) → lib.incoming (lib.new_incoming c m) ≡ some m
  pub incoming-new_outgoing : (c : C) (m : M) → lib.incoming (lib.new_outgoing c m) ≡ lib.incoming c
  pub outgoing-new_outgoing : (c : C) (m : M) → lib.outgoing (lib.new_outgoing c m) ≡ some m
  pub outgoing-new_incoming : (c : C) (m : M) → lib.outgoing (lib.new_incoming c m) ≡ lib.outgoing c

-- The parts of a jaeger.SpanContext, as their String methods and %d print them
pub record SpanContext : Type 0 where
  pub trace_id : GoString
  pub span_id : GoString
  pub flags : GoString
  pub parent_id : GoString

module _ {M C : Type 0} (lib : Metadata M C) where
  abbrev pub md_or_empty : Option M → M
  md_or_empty none = lib.empty_md
  md_or_empty (some m) = m

  -- InAndOutContextAppendKV
  unfoldable pub in_and_out_context_append_kv : C → GoString → GoString → C
  in_and_out_context_append_kv c k v =
      lib.append_outgoing (lib.new_incoming c (lib.join_pair (md_or_empty (lib.incoming c)) k v)) k
        v

  -- InAndOutContextSetKV
  unfoldable pub in_and_out_context_set_kv : C → GoString → GoString → C
  in_and_out_context_set_kv c k v =
      lib.new_outgoing (lib.new_incoming c (lib.set k v (md_or_empty (lib.incoming c))))
        (lib.set k v (md_or_empty (lib.outgoing c)))

  -- InComing2OutComing
  unfoldable pub in_coming2_out_coming : C → C
  in_coming2_out_coming c = lib.new_outgoing c (md_or_empty (lib.incoming c))

  -- SetContextWithB3
  unfoldable pub set_context_with_b3 : C → SpanContext → C
  set_context_with_b3 c s =
      if is_empty s.trace_id
      then c
      else in_and_out_context_set_kv
          (in_and_out_context_set_kv
            (in_and_out_context_set_kv (in_and_out_context_set_kv c (lit "x-b3-traceid") s.trace_id)
              (lit "x-b3-spanid") s.span_id)
            (lit "x-b3-sampled") s.flags)
          (lit "x-b3-parentspanid") s.parent_id

  -- The first loop of UserHeaderToSetContextWithB3: the header as metadata
  unfoldable pub md_of_header : Headers → M → M
  md_of_header [] m = m
  md_of_header ((key, vals) ∷ rest) m = md_of_header rest (lib.append key vals m)

  abbrev pub set_first : GoString → List GoString → C → C
  set_first key [] c = c
  set_first key (v ∷ vs) c = in_and_out_context_set_kv c key v

  -- Its second loop
  unfoldable pub set_keys : List GoString → M → C → C
  set_keys [] m c = c
  set_keys (key ∷ keys) m c = set_keys keys m (set_first key (lib.get key m) c)

  -- UserHeaderToSetContextWithB3
  unfoldable pub user_header_to_set_context_with_b3 : C → Headers → C
  user_header_to_set_context_with_b3 c header =
      set_keys
        (lit "x-b3-traceid" ∷ lit "x-b3-spanid" ∷ lit "x-b3-sampled" ∷ lit "x-b3-parentspanid" ∷ [])
        (md_of_header header lib.empty_md) c

  abbrev pub md_with : Option SpanContext → M → M
  md_with none m = m
  md_with (some s) m = lib.set (lit "x-b3-parentspanid") s.parent_id (
      lib.set (lit "x-b3-sampled") s.flags
        (lib.set (lit "x-b3-spanid") s.span_id (lib.set (lit "x-b3-traceid") s.trace_id m)))

  -- SetMdWithB3: the span context is `none` when it is not one of Jaeger's
  unfoldable pub set_md_with_b3 : Option M → Option SpanContext → M
  set_md_with_b3 m s = md_with s (md_or_empty m)

  abbrev pub parsed {ℓ} : {S : Type ℓ} → Result S → Option S × MaybeError
  parsed (ok s) = (some s, none)
  parsed (err e) = (none, some e)

  -- GetSpanCtxFromCtxB3KV, and GetSpanCtxFromCtx, which has the same body: `parse` is
  -- jaeger.ContextFromString, and `none` stands for the zero span context
  unfoldable pub get_span_ctx_from_ctx_b3_kv {ℓ} :
      {S : Type ℓ} → (GoString → Result S) → C → Option S × MaybeError
  get_span_ctx_from_ctx_b3_kv parse c =
      let id =
        (get_b3_combine_trace_id_and_uber_trace_id
          (lib.entries (md_or_empty (lib.incoming c)))).0 in
      if is_empty id then (none, none) else parsed (parse id)

  -- NewIncomingContext and NewOutgoingContext on a context that may be nil: context.WithValue panics
  -- on a nil parent
  abbrev pub derive : (C → M → C) → Option C → Option M → Outcome (Option C)
  derive new c none = returns c
  derive new none (some m) = panics
  derive new (some c) (some m) = returns (some (new c m))

  -- CopyContext, whose newCtx begins as nil
  unfoldable pub copy_context : C → Outcome (Option C)
  copy_context c =
      derive lib.new_incoming none (lib.incoming c)
      >>= (λ d. derive lib.new_outgoing d (lib.outgoing c))

-- How StartSpanWrapper starts a span: as the child of the span of the context, or from what the tracer
-- reads in the headers.
pub data Origin {ℓ} (S : Type ℓ) : Type ℓ where
  child_of : S → Origin S
  from_headers : Option S → Origin S

abbrev pub uber_key : GoString
uber_key = lit "uber-trace-id"

-- The headers that the tracer reads
unfoldable pub headers_for_tracer : Headers → Headers
headers_for_tracer md =
    let id = (get_b3_combine_trace_id_and_uber_trace_id md).0 in
    if is_empty id then md else store uber_key (id ∷ []) md

-- StartSpanWrapper: `extract` is the tracer's Extract, `current` the span of the context
unfoldable pub start_span_wrapper {ℓ} :
    {S : Type ℓ} → (Headers → Option S) → Option S → Option Headers → Origin S
start_span_wrapper extract (some parent) md = child_of parent
start_span_wrapper extract none none = from_headers (extract (headers_for_tracer []))
start_span_wrapper extract none (some md) = from_headers (extract (headers_for_tracer md))
