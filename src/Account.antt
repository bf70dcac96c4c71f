-- ===== src/Account.antt =====
-- panda-account/server/panda-account-server.go: UploadFile and DownloadFile, which streams a file in
-- chunks. `S` is the state of the file that is being read and of the stream.
pub mod Chunks
use panda_go.Prelude.{ℕ, none, some, Option, List, [], ◌∷◌, ◌++◌}
use panda_go.Go.Text.{GoString, lit}
use panda_go.Go.Error.{Error, MaybeError}

-- The results of file.Read on the buffer: the bytes that it has filled, the end of the file, or
-- another error. A file is the list of what its reads up to the end or the error give.
pub data Ending : Type 0 where
  end_of_file : Ending
  read_error : Error → Ending

pub record File : Type 0 where
  pub reads : List GoString
  pub ending : Ending

-- What the client has got, and the stream's own state behind Send
pub record Stream (S : Type 0) : Type 0 where
  pub chunks : List GoString
  pub state : S

module _ {S : Type 0} (send : GoString → S → MaybeError × S) where
  abbrev pub close_file : Ending → Stream S → MaybeError × Stream S
  close_file end_of_file s = (none, s)
  close_file (read_error e) s = (some e, s)

  abbrev pub after_send :
      GoString
      → (Stream S → MaybeError × Stream S)
      → MaybeError × S
      → Stream S
      → MaybeError × Stream S
  after_send data_read rest (some e, state) s = (some e, record s { state = state })
  after_send data_read rest (none, state) s =
      rest (record { chunks = s.chunks ++ data_read ∷ []; state = state })

  -- The loop of readFileAndWriteToStream
  unfoldable pub stream_reads : List GoString → Ending → Stream S → MaybeError × Stream S
  stream_reads [] ending s = close_file ending s
  stream_reads (r ∷ rs) ending s = after_send r (λ t. stream_reads rs ending t) (send r s.state) s

  -- readFileAndWriteToStream: os.Open gives the file or an error
  unfoldable pub read_file_and_write_to_stream :
      Option File → Error → Stream S → MaybeError × Stream S
  read_file_and_write_to_stream none e s = (some e, s)
  read_file_and_write_to_stream (some f) e s = stream_reads f.reads f.ending s

  -- DownloadFile, after the file has been written; the error is logged
  unfoldable pub download_file : Option File → Error → Stream S → MaybeError × Stream S
  download_file f e s = let (_, t) = read_file_and_write_to_stream f e s in (none, t)

-- UploadFile
abbrev pub upload_file : MaybeError
upload_file = some (lit "method UploadFile not implemented")
