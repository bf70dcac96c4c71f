-- ===== src/Interceptor/Http/Report.antt =====
-- What the span of an HTTP request reports, and that the handlers can still read the body.
use panda_go.Prelude.{
  ◌≡◌, refl, Bool, true, false, not, ◌||◌, Option, none, some, List, [], ◌∷◌, ap, sym, ◌∙◌, ◌++◌,
  ◌+◌, nat_beq, Bool-cases, inl, inr,
}
use panda_go.Go.Text.{GoString}
use panda_go.Go.Int.{pos}
use panda_go.Go.Error.{Result, ok, err}
use panda_go.Interceptor.Spans.{
  Span, Entry, words, number, set_error, http_status_code, http_method, http_proto, panic_err_code,
  get_less_then_limit_str,
}
use panda_go.Interceptor.Http.{
  Gin, Call, log_unless_empty, log_copied, before_next, answer_panic, report_status,
  jaeger_http_server_interceptor, Bodies, get_request_body_param_str,
}

-- The writer that the client is answered with, after c.Next() has given `r`.
abbrev pub answered : {W : Type 0} → Gin W → Call → Bool × W → W
answered gin call (true, w) = gin.json panic_err_code (get_less_then_limit_str call.stack 800) w
answered gin call (false, w) = w

-- The span of a request, and the writer, after c.Next() has given `r`.
pub record Reports {W : Type 0} (gin : Gin W) (call : Call) (r : Bool × W) (q : Span × W)
    : Type 0 where
  pub writer : q.1 ≡ answered gin call r
  pub tags :
      q.0.tags
      ≡ (http_method, words call.method)
        ∷ (http_proto, words call.proto)
        ∷ (http_status_code, number (pos (gin.status (answered gin call r))))
        ∷ []
  pub failed : q.0.failed ≡ (r.0 || not (nat_beq (gin.status (answered gin call r)) 200))
  pub finished_once : q.0.finished ≡ 1

-- A span with these tags and this mark that is not yet finished.
record Is (tags : List (GoString × Entry)) (failed : Bool) (s : Span) : Type 0 where
  same_tags : s.tags ≡ tags
  same_mark : s.failed ≡ failed
  running : s.finished ≡ 0

module _ {t : List (GoString × Entry)} {f : Bool} where
  logged-Is : (k v : GoString) (s : Span) → Is t f s → Is t f (log_unless_empty k v s)
  logged-Is k [] s h = h
  logged-Is k (c ∷ v) s h = record {
    same_tags = h.same_tags;
    same_mark = h.same_mark;
    running = h.running;
  }

  copied-Is : (b : Option GoString) (s : Span) → Is t f s → Is t f (log_copied b s)
  copied-Is none s h = h
  copied-Is (some b) s h = record {
    same_tags = h.same_tags;
    same_mark = h.same_mark;
    running = h.running;
  }

marked-Is : {t : List (GoString × Entry)} {f : Bool} (s : Span) → Is t f s → Is t true (set_error s)
marked-Is s h = record { same_tags = h.same_tags; same_mark = refl; running = h.running }

before_next-Is :
    (call : Call)
    → Is
        ((http_method, words call.method) ∷ (http_proto, words call.proto) ∷ [])
        false
        (before_next call)
unfolding before_next
before_next-Is call =
    logged-Is _ call.body_param _
      (logged-Is _ call.kv_param _ (record { same_tags = refl; same_mark = refl; running = refl }))

or_true : (b : Bool) → (b || true) ≡ true
or_true true = refl
or_true false = refl

or_false : (b : Bool) → (b || false) ≡ b
or_false true = refl
or_false false = refl

module _ {W : Type 0} (gin : Gin W) (call : Call) where
  -- The end of the deferred function, on a span with the mark `f`.
  reported :
      {t : List (GoString × Entry)} (f : Bool) (s : Span) (w : W)
      → Is t f s
      → let q : Span × W = report_status gin call (s, w) in
        (q.1 ≡ w)
        × (q.0.tags ≡ t ++ (http_status_code, number (pos (gin.status w))) ∷ [])
        × (q.0.failed ≡ (f || not (nat_beq (gin.status w) 200)))
        × (q.0.finished ≡ 1)
  unfolding report_status
  reported f s w h = elim (Bool-cases (nat_beq (gin.status w) 200)) [
    | inl p ↦
        rw (p, report_status)
          (
            refl,
            ap (λ l. l ++ (http_status_code, number (pos (gin.status w))) ∷ []) h.same_tags,
            h.same_mark ∙ sym (or_false f),
            ap (λ n. n + 1) h.running,
          )
    | inr p ↦
        let k = copied-Is (gin.copied_body w) _ (marked-Is s h) in
        rw (p, report_status)
          (
            refl,
            ap (λ l. l ++ (http_status_code, number (pos (gin.status w))) ∷ []) k.same_tags,
            k.same_mark ∙ sym (or_true f),
            ap (λ n. n + 1) k.running,
          )
  ]

  answer_panic-Reports :
      (r : Bool × W)
      → Reports gin call r
          (report_status gin call (answer_panic gin call r.0 (before_next call, r.1)))
  unfolding answer_panic
  answer_panic-Reports (true, w) =
      let h = before_next-Is call in
      let (same, tags, failed, once) =
        reported true _ _
          (record { same_tags = h.same_tags; same_mark = refl; running = h.running }) in
      record { writer = same; tags = tags; failed = failed; finished_once = once }
  answer_panic-Reports (false, w) =
      let (same, tags, failed, once) = reported false _ w (before_next-Is call) in
      record { writer = same; tags = tags; failed = failed; finished_once = once }

  -- The interceptor's span carries the method, the protocol and the status of the writer at the end,
  -- in this order, is marked as failed when the handlers panicked or that status is not 200, and is
  -- finished once. Handlers that panic are answered by status 590 with at most 800 bytes of the stack;
  -- otherwise the writer is what they left.
  pub http_server-Reports :
      (next : W → Bool × W) (w : W)
      → Reports gin call (next w) (jaeger_http_server_interceptor gin call next w)
  unfolding jaeger_http_server_interceptor
  http_server-Reports next w = answer_panic-Reports (next w)

-- GetRequestBodyParamStr leaves a body that reads as before and returns what it reads; when reading
-- fails, it returns the empty string.
pub get_request_body_param_str-readable :
    {B : Type 0} (lib : Bodies B)
    → ((s : GoString) → lib.read_all (lib.of_bytes s) ≡ ok s)
    → (b : B)
    → let q : GoString × B = get_request_body_param_str lib b in
      (lib.read_all q.1 ≡ lib.read_all b) × (q.0 ≡ elim (lib.read_all b) [ ok s ↦ s | err e ↦ [] ])
unfolding get_request_body_param_str
get_request_body_param_str-readable {B} lib law b = go (lib.read_all b) refl
  where
    go :
        (r : Result GoString)
        → lib.read_all b ≡ r
        → let q : GoString × B = get_request_body_param_str lib b in
          (lib.read_all q.1 ≡ lib.read_all b)
          × (q.0 ≡ elim (lib.read_all b) [ ok s ↦ s | err e ↦ [] ])
    go (ok s) e = rw (e, get_request_body_param_str) (law s, refl)
    go (err x) e = rw (e, get_request_body_param_str) (e, refl)
