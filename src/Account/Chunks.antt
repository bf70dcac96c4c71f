-- ===== src/Account/Chunks.antt =====
-- What a client of DownloadFile gets.
use panda_go.Prelude.{
  ◌≡◌, refl, none, some, List, [], ◌∷◌, ◌++◌, append-nil, append_assoc, arith, sym, ap, ◌∙◌,
}
use panda_go.Go.Text.{GoString}
use panda_go.Go.Error.{Error, MaybeError}
use panda_go.Account.{
  Ending, end_of_file, read_error, File, Stream, close_file, after_send, stream_reads,
  read_file_and_write_to_stream, download_file,
}

abbrev pub concat : List GoString → GoString
concat [] = []
concat (s ∷ ss) = s ++ concat ss

concat-append : (ss ts : List GoString) → concat (ss ++ ts) ≡ concat ss ++ concat ts
concat-append [] ts = refl
concat-append (s ∷ ss) ts = rw (concat-append ss ts) (sym (append_assoc s (concat ss) (concat ts)))

module _ {S : Type 0} (send : GoString → S → MaybeError × S) where
  -- A run of the loop from `s` to `t`: what has arrived since is a beginning of what there was to
  -- read, and all of it, with the end of the file reached, when there is no error.
  pub record Streamed (rs : List GoString) (ending : Ending) (s : Stream S)
      (r : MaybeError × Stream S) : Type 0 where
    pub got : List GoString
    pub missing : List GoString
    pub split : got ++ missing ≡ rs
    pub arrived : r.1.chunks ≡ s.chunks ++ got
    pub whole : r.0 ≡ none → (missing ≡ []) × (ending ≡ end_of_file)

  close_file-Streamed :
      (ending : Ending) (s : Stream S) → Streamed [] ending s (close_file send ending s)
  close_file-Streamed end_of_file s = record {
    got = [];
    missing = [];
    split = refl;
    arrived = sym (append-nil s.chunks);
    whole = λ _. (refl, refl);
  }
  close_file-Streamed (read_error e) s = record {
    got = [];
    missing = [];
    split = refl;
    arrived = sym (append-nil s.chunks);
    whole = λ h. absurd (ground arith);
  }

  after_send-Streamed :
      (r : GoString) (rs : List GoString) (ending : Ending) (s : Stream S) (a : MaybeError × S)
      → ((t : Stream S) → Streamed rs ending t (stream_reads send rs ending t))
      → Streamed (r ∷ rs) ending s (after_send send r (λ t. stream_reads send rs ending t) a s)
  after_send-Streamed r rs ending s (some e, state) later = record {
    got = [];
    missing = r ∷ rs;
    split = refl;
    arrived = sym (append-nil s.chunks);
    whole = λ h. absurd (ground arith);
  }
  after_send-Streamed r rs ending s (none, state) later =
      let rest = later (record { chunks = s.chunks ++ r ∷ []; state = state }) in
      record {
        got = r ∷ rest.got;
        missing = rest.missing;
        split = ap (λ l. r ∷ l) rest.split;
        arrived = rest.arrived ∙ append_assoc s.chunks (r ∷ []) rest.got;
        whole = rest.whole;
      }

  stream_reads-Streamed :
      (rs : List GoString) (ending : Ending) (s : Stream S)
      → Streamed rs ending s (stream_reads send rs ending s)
  unfolding stream_reads
  stream_reads-Streamed [] ending s = close_file-Streamed ending s
  stream_reads-Streamed (r ∷ rs) ending s =
      after_send-Streamed r rs ending s (send r s.state) (λ t. stream_reads-Streamed rs ending t)

  -- What a client of DownloadFile gets is, byte for byte, a beginning of what the reads of the file
  -- give, whatever sizes the reads have; it is all of it when readFileAndWriteToStream returns no
  -- error, but DownloadFile itself reports success in every case.
  pub download_file-beginning :
      (f : File) (e : Error) (state : S)
      → ((missing : GoString) × (concat
                (download_file send (some f) e (record { chunks = []; state = state })).1.chunks
              ++ missing
            ≡ concat f.reads))
        × ((read_file_and_write_to_stream send (some f) e (record { chunks = []; state = state })).0
              ≡ none
            → concat
                (download_file send (some f) e (record { chunks = []; state = state })).1.chunks
              ≡ concat f.reads)
        × ((download_file send (some f) e (record { chunks = []; state = state })).0 ≡ none)
  unfolding download_file read_file_and_write_to_stream
  download_file-beginning f e state =
      let run = stream_reads-Streamed f.reads f.ending (record { chunks = []; state = state }) in
      (
        (
          concat run.missing,
          ap (λ l. concat l ++ concat run.missing) run.arrived
              ∙ (sym (concat-append run.got run.missing) ∙ ap concat run.split),
        ),
        λ h.
            let (gone, _) = run.whole h in
            ap concat (
              run.arrived
              ∙ (sym (append-nil run.got) ∙ (ap (λ l. run.got ++ l) (sym gone) ∙ run.split))),
        refl,
      )
