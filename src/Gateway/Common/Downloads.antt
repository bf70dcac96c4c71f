-- ===== src/Gateway/Common/Downloads.antt =====
-- What the gateway answers when profiles are downloaded through it.
use panda_go.Prelude.{
  ℕ, ◌≡◌, ◌≢◌, refl, Bool, true, false, none, some, Option, List, [], ◌∷◌, sym, subst, ◌∙◌,
}
use panda_go.Go.Text.{GoString, lit}
use panda_go.Go.Error.{Error, MaybeError, ok, err}
use panda_go.Go.Outcome.{returns}
use panda_go.Gateway.Common.{
  Metadata, Stub, Writer, request_download_pprof_file, add_values, add_metadata, handle_download,
}

module _ {Q P S X : Type 0} (stub : Stub Q P S X) where
  -- A stream and its header come of a call.
  pub data CallFails (p : P) (x : X) : Type 0 where
    no_stream :
        {e : Error} {x' : X} → stub.call_download_pprof_file p x ≡ (err e, x') → CallFails p x
    no_header :
        {s : S} {e : Error} {x' x'' : X}
        → stub.call_download_pprof_file p x ≡ (ok s, x')
        → stub.stream_header s x' ≡ (err e, x'')
        → CallFails p x

  -- The ways in which the request of a download cannot be made; the end of the body is no error.
  pub data CannotAsk (req : Q) (x : X) : Type 0 where
    unreadable : {e : Error} → stub.body_reader req ≡ some e → CannotAsk req x
    undecodable :
        {e : Error} {p : P}
        → stub.body_reader req ≡ none
        → stub.decode req ≡ ((some e, false), p)
        → CannotAsk req x
    empty_body :
        {e : Error} {p : P}
        → stub.body_reader req ≡ none
        → stub.decode req ≡ ((some e, true), p)
        → CallFails p x
        → CannotAsk req x
    uncalled :
        {eof : Bool} {p : P}
        → stub.body_reader req ≡ none
        → stub.decode req ≡ ((none, eof), p)
        → CallFails p x
        → CannotAsk req x

  -- The results of a request: a stream, or why there is none
  abbrev Opens : Type 0 → (Option S × Metadata × MaybeError) × X → Type 0
  Opens F ((none, md, e), x) = F
  Opens F ((some s, md, e), x) = Unit

-- net/http: the header goes out with the first write, and what is added to it afterwards is lost.
pub record SentOnce {P R : Type 0} (writer : Writer P R) (V : Type 0) : Type 0 where
  pub seen : R → Option V
  pub sent : (chunk : GoString) (r r' : R) → writer.write chunk r ≡ (none, r') → seen r' ≢ none
  pub late_header :
      (key value : GoString) (r : R) → seen r ≢ none → seen (writer.add_header key value r) ≡ seen r
  pub late_status : (n : ℕ) (r : R) → seen r ≢ none → seen (writer.write_header n r) ≡ seen r

module _ {Q P S X R V : Type 0} (stub : Stub Q P S X) (writer : Writer P R)
    (net : SentOnce writer V) where
  add_values-seen :
      (key : GoString) (values : List GoString) (r : R)
      → net.seen r ≢ none
      → net.seen (add_values stub writer key values r) ≡ net.seen r
  unfolding add_values
  add_values-seen key [] r h = refl
  add_values-seen key (v ∷ values) r h =
      let kept = net.late_header key v r h in
      add_values-seen key values (writer.add_header key v r) (subst (λ o. o ≢ none) (sym kept) h)
      ∙ kept

  add_metadata-seen :
      (md : Metadata) (r : R)
      → net.seen r ≢ none
      → net.seen (add_metadata stub writer md r) ≡ net.seen r
  unfolding add_metadata
  add_metadata-seen [] r h = refl
  add_metadata-seen ((key, values) ∷ md) r h =
      let kept = add_values-seen key values r h in
      add_metadata-seen md (add_values stub writer key values r)
        (subst (λ o. o ≢ none) (sym kept) h)
      ∙ kept

  -- A download that is received and written returns, and its client sees the header as it was at the
  -- write: what the service put into the metadata, the name and the type of the file, is lost.
  pub handle_download-seen :
      (req : Q) (x x1 x2 x3 : X) (s : S) (md : Metadata) (chunk : GoString) (r r1 : R)
      → stub.annotate_context
          (lit "/pb.CommonService/DownloadPprofFile")
          (lit "/v1/download-pprof")
          req
          x
        ≡ (none, x1)
      → request_download_pprof_file stub req x1 ≡ ((some s, md, none), x2)
      → stub.recv_msg s x2 ≡ (ok chunk, x3)
      → writer.write chunk r ≡ (none, r1)
      → (r' : R) × (handle_download stub writer req x r ≡ returns (x3, r'))
        × (net.seen r' ≡ net.seen r1)
  unfolding handle_download
  handle_download-seen req x x1 x2 x3 s md chunk r r1 annotated requested received written =
      let out = net.sent chunk r r1 written in
      let kept = add_metadata-seen md r1 out in
      (
        writer.write_header 200 (add_metadata stub writer md r1),
        rw (annotated, requested, received, written) refl,
        net.late_status 200 (add_metadata stub writer md r1) (subst (λ o. o ≢ none) (sym kept) out)
            ∙ kept,
      )
