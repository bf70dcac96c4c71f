-- ===== src/Interceptor/Passing.antt =====
-- What a caller sees through the gRPC interceptors, and that every span is finished once.
use panda_go.Prelude.{
  ℕ, ◌+◌, ◌≡◌, refl, Bool, true, false, ◌&&◌, Option, none, some, arith, if◌then◌else◌, ltb, leb,
  length, take, ap, ◌∙◌, Bool-cases, inl, inr,
}
use panda_go.Go.Text.{GoString}
use panda_go.Go.Error.{Error, MaybeError}
use panda_go.Go.Outcome.{Outcome, returns, panics}
use panda_go.Interceptor.Spans.{Span, set_error, slice_to, error_words}
use panda_go.Interceptor.Server.{
  Surroundings, Handler, Frame, inner_error, note_error, after_call, recovered,
  jaeger_grpc_unary_server_interceptor, jaeger_grpc_stream_server_interceptor,
  jaeger_grpc_unary_client_interceptor,
}

-- Texts that are too long for the log as they are and too short for the slice that shortens them.
abbrev pub between : Error → Bool
between e = ltb 200 (length e) && ltb (length e) 800

-- What the caller gets of a handler's answer: a panic becomes the inner error, and so does an error
-- whose text is longer than 200 and shorter than 800 bytes; all else passes.
abbrev pub seen :
    {R : Type 0} → Surroundings → Outcome (Option R × MaybeError) → Option R × MaybeError
seen env panics = (none, some (inner_error env))
seen env (returns (r, none)) = (r, none)
seen env (returns (r, some e)) = (r, some (if between e then inner_error env else e))

-- An interceptor's results and its span after the handler's `answer`.
pub record Passes {R W : Type 0} (env : Surroundings) (answer : Outcome (Option R × MaybeError) × W)
    (q : Frame R × W) : Type 0 where
  pub results : (q.0.resp, q.0.error) ≡ seen env answer.0
  pub world : q.1 ≡ answer.1
  pub finished_once : q.0.span.finished ≡ 1

leb_of_ltb : (n m : ℕ) → leb n m ≡ (if ltb m n then false else true)
leb_of_ltb n m = ground arith

error_words_cases :
    (e : Error)
    → error_words e ≡ (
        if ltb 200 (length e)
        then (if ltb (length e) 800 then panics else returns (take 800 e))
        else returns e)
unfolding error_words slice_to
error_words_cases e = rw (leb_of_ltb 800 (length e)) (go (ltb (length e) 800))
  where
    go :
        (b : Bool)
        → (if ltb 200 (length e)
            then (if (if b then false else true) then returns (take 800 e) else panics)
            else returns e)
          ≡ (if ltb 200 (length e) then (if b then panics else returns (take 800 e)) else returns e)
    go true = refl
    go false = refl

error_words-panics : (e : Error) → between e ≡ true → error_words e ≡ panics
error_words-panics e h = error_words_cases e ∙ go (ltb 200 (length e)) (ltb (length e) 800) h
  where
    go :
        (a b : Bool)
        → (a && b) ≡ true
        → (if a then (if b then panics else returns (take 800 e)) else returns e) ≡ panics
    go true true k = refl
    go true false k = cc
    go false b k = cc

error_words-returns : (e : Error) → between e ≡ false → (s : GoString) × (error_words e ≡ returns s)
error_words-returns e h =
    let (s, k) = go (ltb 200 (length e)) (ltb (length e) 800) h in (s, error_words_cases e ∙ k)
  where
    go :
        (a b : Bool)
        → (a && b) ≡ false
        → (s : GoString) × ((if a then (if b then panics else returns (take 800 e)) else returns e)
            ≡ returns s)
    go true true k = cc
    go true false k = (take 800 e, refl)
    go false b k = (e, refl)

module _ {R W : Type 0} (env : Surroundings) (mark mark' : Span → Span) where
  after_call-Passes :
      (span : Span) (answer : Outcome (Option R × MaybeError) × W)
      → span.finished ≡ 0
      → ((s : Span) → (mark s).finished ≡ s.finished)
      → ((s : Span) → (mark' s).finished ≡ s.finished)
      → Passes env answer (recovered env mark (after_call env mark' span answer))
  unfolding recovered after_call note_error
  after_call-Passes span (panics, w) new keeps keeps' = record {
    results = refl;
    world = refl;
    finished_once = ap (λ n. n + 1) (keeps _ ∙ new);
  }
  after_call-Passes span (returns (r, none), w) new keeps keeps' = record {
    results = refl;
    world = refl;
    finished_once = ap (λ n. n + 1) new;
  }
  after_call-Passes span (returns (r, some e), w) new keeps keeps' = elim (Bool-cases (between e)) [
    | inl p ↦
        rw (error_words-panics e p, recovered, after_call, note_error)
          (record {
            results = rw p refl;
            world = refl;
            finished_once = ap (λ n. n + 1) (keeps _ ∙ (keeps' _ ∙ new));
          })
    | inr p ↦
        let (s, q) = error_words-returns e p in
        rw (q, recovered, after_call, note_error)
          (record {
            results = rw p refl;
            world = refl;
            finished_once = ap (λ n. n + 1) (keeps' _ ∙ new);
          })
  ]

module _ {R W : Type 0} (env : Surroundings) (handler : Handler R W) (w : W) where
  -- The unary server interceptor returns what the handler returned and keeps what the handler did,
  -- finishes its span once, and never panics; of a handler that panics, or whose error is longer than
  -- 200 and shorter than 800 bytes, the caller gets error 590 in place of the handler's.
  pub unary_server-Passes :
      Passes env (handler w) (jaeger_grpc_unary_server_interceptor env handler w)
  unfolding jaeger_grpc_unary_server_interceptor
  unary_server-Passes =
      after_call-Passes env set_error set_error _ (handler w) refl (λ s. refl) (λ s. refl)

  -- The unary client interceptor returns what the call that it wraps returned and keeps what it did,
  -- finishes its span once, and never panics; of a call that panics, or whose error is longer than 200
  -- and shorter than 800 bytes, the caller gets error 590 in place of the error.
  pub unary_client-Passes :
      Passes env (handler w) (jaeger_grpc_unary_client_interceptor env handler w)
  unfolding jaeger_grpc_unary_client_interceptor
  unary_client-Passes =
      after_call-Passes env (λ s. s) set_error _ (handler w) refl (λ s. refl) (λ s. refl)

  -- The stream server interceptor returns what the handler returned, which is called once the headers
  -- are set, keeps what it did, finishes its span once, and never panics; of a handler that panics, or
  -- whose error is longer than 200 and shorter than 800 bytes, the caller gets error 590 instead.
  pub stream_server-Passes :
      (set_headers : W → W)
      → Passes env
          (handler (set_headers w))
          (jaeger_grpc_stream_server_interceptor env set_headers handler w)
  unfolding jaeger_grpc_stream_server_interceptor
  stream_server-Passes set_headers =
      after_call-Passes env (λ s. s) (λ s. s) _ (handler (set_headers w)) refl (λ s. refl)
        (λ s. refl)
