-- ===== src/Tests/Gateways.antt =====
-- A gateway over a service that sends one chunk, and a writer that sends its header once.
use panda_go.Prelude.{
  ℕ, ◌≡◌, ◌≢◌, refl, ap, subst, Bool, false, none, some, Option, List, [], ◌∷◌, ◌++◌, list_beq,
  arith,
}
use panda_go.Go.Text.{GoString, lit, split, has_suffix}
use panda_go.Go.Error.{MaybeError, ok}
use panda_go.Go.Outcome.{returns}
use panda_go.Gateway.{strip_prefix}
use panda_go.Gateway.Swagger.{
  serve_swagger_file, serve_file, contains_dot_dot, join_path, clean_elements,
}
use panda_go.Gateway.Swagger.Inside.{Inside, serve_swagger_file-Inside}
use panda_go.Gateway.Common.{Metadata, Stub, Writer, request_download_pprof_file, handle_download}
use panda_go.Gateway.Common.Downloads.{SentOnce, handle_download-seen}

abbrev named : Metadata
named = (lit "Content-Type", lit "application/zip" ∷ []) ∷ []

-- Requests are texts, and an empty one cannot be decoded.
abbrev decode_text : GoString → (MaybeError × Bool) × GoString
decode_text [] = ((some (lit "syntax"), false), [])
decode_text (c ∷ s) = ((none, false), c ∷ s)

abbrev stub : Stub GoString GoString ℕ ℕ
stub = record {
  annotate_context = λ name pattern req x. (none, x);
  body_reader = λ req. none;
  decode = decode_text;
  invalid_argument = λ e. e;
  call_set_log_level = λ level x. ((level, [], none), x);
  call_download_pprof_file = λ p x. (ok 7, x);
  stream_header = λ s x. (ok named, x);
  recv_msg = λ s x. (ok (lit "PK"), x);
}

-- The header so far, and what has gone out.
abbrev Page : Type 0
Page = List (GoString × GoString) × Option (ℕ × List (GoString × GoString))

abbrev send_header : ℕ → Page → Page
send_header n (h, none) = (h, some (n, h))
send_header n (h, some v) = (h, some v)

abbrev writer : Writer GoString Page
writer = record {
  write = λ chunk p. (none, send_header 200 p);
  add_header = λ key value p. (p.0 ++ (key, value) ∷ [], p.1);
  write_header = send_header;
  http_error = λ e p. send_header 500 p;
  forward = λ md m p. send_header 200 p;
}

sends : (n : ℕ) (p : Page) → (send_header n p).1 ≢ none
sends n (h, none) k = ground arith
sends n (h, some v) k = ground arith

sends_once : (n : ℕ) (p : Page) → p.1 ≢ none → (send_header n p).1 ≡ p.1
sends_once n (h, none) k = absurd (k refl)
sends_once n (h, some v) k = refl

abbrev page : SentOnce writer (ℕ × List (GoString × GoString))
page = record {
  seen = λ p. p.1;
  sent = λ chunk r r' e. subst (λ q. q.1 ≢ none) (ap (λ w. w.1) e) (sends 200 r);
  late_header = λ key value r h. refl;
  late_status = sends_once;
}

handle_download-seen_example :
    (r' : Page) × (handle_download stub writer (lit "{}") 0 ([], none) ≡ returns (0, r'))
    × (r'.1 ≡ some (200, []))
unfolding request_download_pprof_file lit
handle_download-seen_example =
    handle_download-seen stub writer page (lit "{}") 0 0 0 0 7 named (lit "PK") ([], none)
      ([], some (200, [])) refl refl refl refl

abbrev description : GoString
description = lit "/swagger/./pb//panda.swagger.json"

serve_swagger_file-Inside_example : Inside (lit "proto") (lit "proto/pb/panda.swagger.json")
unfolding serve_swagger_file strip_prefix has_suffix serve_file contains_dot_dot split join_path
    clean_elements list_beq lit
serve_swagger_file-Inside_example =
    serve_swagger_file-Inside description (lit "proto/pb/panda.swagger.json") refl
