-- ===== src/Server.antt =====
-- common/grpc-wrapper/grpc_server_wrapper/grpc-server-wrapper.go: the service that every server of
-- the program offers. `Z` is a zip.Writer over its buffer, `P` are the profiles of runtime/pprof.
pub mod Downloads
pub mod Collection
use panda_go.Prelude.{
  ℕ, Bool, true, false, none, some, Option, List, [], ◌∷◌, ◌++◌, length, nat_eq, list_eq,
}
use panda_go.Go.Text.{GoString, lit}
use panda_go.Go.Error.{Error, MaybeError}
use panda_go.Go.Outcome.{Outcome, returns, panics, ◌>>=◌}
use panda_go.Log.Logger.{Logger, set_level}

pub record SetLogLevelResponse : Type 0 where
  pub response_code : ℕ
  pub err_msg : GoString

abbrev pub level_answer : MaybeError → SetLogLevelResponse × MaybeError
level_answer (some e) = (record { response_code = 400; err_msg = e }, some e)
level_answer none = (record { response_code = 200; err_msg = [] }, none)

-- SetLogLevel
unfoldable pub set_log_level : GoString → Logger → (SetLogLevelResponse × MaybeError) × Logger
set_log_level name l = let (e, l') = set_level name l in (level_answer e, l')

-- archive/zip and runtime/pprof; `string_of` is Go's conversion of an integer to a string, which
-- is the character of that number.
pub record Profiles (Z P : Type 0) : Type 0 where
  pub new_zip : Z
  pub create : GoString → Z → MaybeError × Z
  pub lookup : GoString → Option P
  pub write_to : P → Z → Z
  pub close : Z → Z
  pub bytes : Z → GoString
  pub string_of : ℕ → GoString

-- The stream of the download
pub record Download : Type 0 where
  pub header : List (GoString × GoString)
  pub sent : List GoString

abbrev pub new_download : Download
new_download = record { header = []; sent = [] }

abbrev pub choose_types : List GoString → List GoString → List GoString
choose_types keys [] = keys
choose_types keys (t ∷ ts) = t ∷ ts

module _ {Z P : Type 0} (lib : Profiles Z P) where
  -- pprof.Lookup(pprofType).WriteTo(file, 0): a profile that does not exist is a nil pointer.
  abbrev pub write_profile : Option P → Z → Outcome Z
  write_profile none z = panics
  write_profile (some p) z = returns (lib.write_to p z)

  abbrev pub write_created :
      GoString → (Z → Outcome (MaybeError × Z)) → MaybeError → Z → Outcome (MaybeError × Z)
  write_created t rest (some e) z = returns (some e, z)
  write_created t rest none z = write_profile (lib.lookup t) z >>= rest

  -- The loop over the types
  unfoldable pub write_profiles : List GoString → Z → Outcome (MaybeError × Z)
  write_profiles [] z = returns (none, z)
  write_profiles (t ∷ ts) z =
      let (e, z') = lib.create t z in write_created t (λ y. write_profiles ts y) e z'

  abbrev pub empty_content : Error
  empty_content = lit "[DownloadPprofFile] zipBuffer.Bytes() is empty"

  abbrev pub headers : GoString → List (GoString × GoString)
  headers content =
      (lit "Content-Disposition", lit "attachment; filename=pprof-files.zip")
      ∷ (lit "Content-Type", lit "application/zip")
      ∷ (lit "Content-Length", lib.string_of (length content))
      ∷ []

  abbrev pub send_content : GoString → MaybeError × Download
  send_content [] = (some empty_content, record { header = headers []; sent = [] })
  send_content (c ∷ content) =
      (none, record { header = headers (c ∷ content); sent = (c ∷ content) ∷ [] })

  abbrev pub answer_download : MaybeError × Z → MaybeError × Download
  answer_download (some e, z) = (some e, new_download)
  answer_download (none, z) = send_content (lib.bytes (lib.close z))

  -- DownloadPprofFile: `keys` are the keys of PprofType_value in the order of the `range` loop; the
  -- copy under /tmp is left out.
  unfoldable pub download_pprof_file :
      List GoString → Option (List GoString) → Outcome (MaybeError × Download)
  download_pprof_file keys none = returns (some (lit " req nil!"), new_download)
  download_pprof_file keys (some types) =
      write_profiles (choose_types keys types) lib.new_zip >>= (λ r. returns (answer_download r))
