-- ===== src/Gateway/Common.antt =====
-- proto/pb/extra.pb.gw.go and the functions of common.pb.gw.go that it calls: the routes by which the
-- gateway offers the common service of every server. `Q` are requests, `P` messages of the protocol,
-- `S` streams of a download, `X` the state behind the connection, `R` the writer of the answer.
pub mod Downloads
use panda_go.Prelude.{
  ℕ, Bool, true, false, none, some, Option, List, [], ◌∷◌, ◌++◌, nat_eq, list_eq,
}
use panda_go.Go.Text.{GoString, lit}
use panda_go.Go.Map.{GoMap, load}
use panda_go.Go.Error.{Error, MaybeError, Result, ok, err}
use panda_go.Go.Outcome.{Outcome, returns, panics}

-- What runtime.ServerMetadata holds of the header
abbrev pub Metadata : Type 0
Metadata = GoMap GoString (List GoString)

-- The runtime of grpc-gateway and the client that is generated for the service. `decode` also says
-- whether its error is io.EOF.
pub record Stub (Q P S X : Type 0) : Type 0 where
  pub annotate_context : GoString → GoString → Q → X → MaybeError × X
  pub body_reader : Q → MaybeError
  pub decode : Q → (MaybeError × Bool) × P
  pub invalid_argument : GoString → Error
  pub call_set_log_level : GoString → X → (P × Metadata × MaybeError) × X
  pub call_download_pprof_file : P → X → Result S × X
  pub stream_header : S → X → Result Metadata × X
  pub recv_msg : S → X → Result GoString × X

-- An http.ResponseWriter of net/http, with the functions of the gateway's runtime that end an answer.
pub record Writer (P R : Type 0) : Type 0 where
  pub write : GoString → R → MaybeError × R
  pub add_header : GoString → GoString → R → R
  pub write_header : ℕ → R → R
  pub http_error : Error → R → R
  pub forward : Metadata → P → R → R

module _ {Q P S X : Type 0} (stub : Stub Q P S X) where
  -- request_CommonService_SetLogLevel_0: runtime.String does not fail.
  unfoldable pub request_set_log_level : P → Option GoString → X → (P × Metadata × MaybeError) × X
  request_set_log_level no_message none x =
      ((no_message, [], some (stub.invalid_argument (lit "missing parameter level"))), x)
  request_set_log_level no_message (some level) x = stub.call_set_log_level level x

  abbrev pub header_read : S → Result Metadata × X → (Option S × Metadata × MaybeError) × X
  header_read s (err e, x) = ((none, [], some e), x)
  header_read s (ok md, x) = ((some s, md, none), x)

  abbrev pub stream_opened : Result S × X → (Option S × Metadata × MaybeError) × X
  stream_opened (err e, x) = ((none, [], some e), x)
  stream_opened (ok s, x) = header_read s (stub.stream_header s x)

  abbrev pub message_decoded : (MaybeError × Bool) × P → X → (Option S × Metadata × MaybeError) × X
  message_decoded ((some e, false), p) x = ((none, [], some (stub.invalid_argument e)), x)
  message_decoded ((some e, true), p) x = stream_opened (stub.call_download_pprof_file p x)
  message_decoded ((none, eof), p) x = stream_opened (stub.call_download_pprof_file p x)

  abbrev pub body_read : MaybeError → Q → X → (Option S × Metadata × MaybeError) × X
  body_read (some e) req x = ((none, [], some (stub.invalid_argument e)), x)
  body_read none req x = message_decoded (stub.decode req) x

  -- request_CommonService_DownloadPprofFile_0
  unfoldable pub request_download_pprof_file : Q → X → (Option S × Metadata × MaybeError) × X
  request_download_pprof_file req x = body_read (stub.body_reader req) req x

  module _ {R : Type 0} (writer : Writer P R) where
    abbrev pub level_answered : (P × Metadata × MaybeError) × X → R → X × R
    level_answered ((p, md, some e), x) r = (x, writer.http_error e r)
    level_answered ((p, md, none), x) r = (x, writer.forward md p r)

    abbrev pub level_annotated : P → GoMap GoString GoString → MaybeError × X → R → X × R
    level_annotated no_message params (some e, x) r = (x, writer.http_error e r)
    level_annotated no_message params (none, x) r =
        level_answered (request_set_log_level no_message (load (lit "level") params) x) r

    -- The handler of the route of the level
    unfoldable pub handle_level : GoString → P → GoMap GoString GoString → Q → X → R → X × R
    handle_level name no_message params req x r =
        level_annotated no_message params
          (stub.annotate_context (lit "/pb.CommonService/SetLogLevel")
            (lit "/v1/" ++ name ++ lit "/level" ++ lit "/{level}") req x)
          r

    -- The two loops over the metadata
    unfoldable pub add_values : GoString → List GoString → R → R
    add_values key [] r = r
    add_values key (value ∷ values) r = add_values key values (writer.add_header key value r)

    unfoldable pub add_metadata : Metadata → R → R
    add_metadata [] r = r
    add_metadata ((key, values) ∷ md) r = add_metadata md (add_values key values r)

    abbrev pub chunk_written : Metadata → X → MaybeError × R → Outcome (X × R)
    chunk_written md x (some e, r) = returns (x, writer.http_error e r)
    chunk_written md x (none, r) = returns (x, writer.write_header 200 (add_metadata md r))

    abbrev pub chunk_received : Metadata → Result GoString × X → R → Outcome (X × R)
    chunk_received md (err e, x) r = returns (x, writer.http_error e r)
    chunk_received md (ok chunk, x) r = chunk_written md x (writer.write chunk r)

    -- The error of the request is overwritten by that of RecvMsg, which is called on its stream.
    abbrev pub download_requested : (Option S × Metadata × MaybeError) × X → R → Outcome (X × R)
    download_requested ((none, md, e), x) r = panics
    download_requested ((some s, md, e), x) r = chunk_received md (stub.recv_msg s x) r

    abbrev pub download_annotated : Q → MaybeError × X → R → Outcome (X × R)
    download_annotated req (some e, x) r = returns (x, writer.http_error e r)
    download_annotated req (none, x) r = download_requested (request_download_pprof_file req x) r

    -- The handler of the route of the download
    unfoldable pub handle_download : Q → X → R → Outcome (X × R)
    handle_download req x r =
        download_annotated req
          (stub.annotate_context (lit "/pb.CommonService/DownloadPprofFile")
            (lit "/v1/download-pprof") req x)
          r

-- The routes of a service, by method and pattern
pub data Handler : Type 0 where
  level_handler : GoString → Handler
  download_handler : Handler

abbrev pub Routed : Type 0
Routed = GoString × GoString × Handler

-- RegisterCommonServiceHandlerClientWithServiceName, on the routes of the mux
unfoldable pub register_common_service : GoString → List Routed → MaybeError × List Routed
register_common_service [] mux =
    (some (lit "[RegisterCommonServiceHandlerClientWithServiceName] serviceName is empty"), mux)
register_common_service (c ∷ name) mux = (
  none,
  mux
      ++ (lit "GET", lit "/v1/" ++ (c ∷ name) ++ lit "/level/{level}", level_handler (c ∷ name))
        ∷ (lit "POST", lit "/v1/" ++ (c ∷ name) ++ lit "/download-pprof", download_handler)
        ∷ [],
)
