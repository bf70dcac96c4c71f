-- ===== src/Tests/Servers.antt =====
-- The services and the gateway, with small libraries.
use panda_go.Prelude.{
  ℕ, zero, suc, ◌≡◌, ◌≢◌, inl, inr, refl, true, false, none, some, List, [], ◌∷◌, ◌++◌, map, arith,
  ◌==◌, nat_eq, list_eq, list_beq, if◌then◌else◌,
}
use panda_go.Go.Text.{GoString, lit}
use panda_go.Go.Error.{MaybeError, Result, ok, err}
use panda_go.Go.Outcome.{returns}
use panda_go.Server.{Profiles, download_pprof_file, new_download}
use panda_go.Server.Downloads.{download_pprof_file-fails}
use panda_go.Server.Collection.{
  Message, update_goroutine_count, message_of, sample, update_goroutine_count-pushed,
}
use panda_go.Account.{File, end_of_file, download_file, read_file_and_write_to_stream}
use panda_go.Account.Chunks.{concat, download_file-beginning}
use panda_go.Utils.Kebab.{camel_to_kebab_case, camel_loop, camel_to_kebab_case-back}

-- A zip is the list of its entries; there are all profiles but "profile".
abbrev profiles : Profiles GoString ℕ
profiles = record {
  new_zip = [];
  create = λ t z. (none, z ++ t);
  lookup = λ t. if t == lit "profile" then none else some 1;
  write_to = λ p z. z ++ p ∷ [];
  close = λ z. z;
  bytes = λ z. z;
  string_of = λ n. n ∷ [];
}

download_pprof_file-fails_example :
    download_pprof_file profiles (lit "heap" ∷ lit "profile" ∷ []) (some [])
    ≢ returns (none, new_download)
unfolding list_beq lit
download_pprof_file-fails_example =
    download_pprof_file-fails profiles (lit "heap" ∷ []) [] new_download refl

abbrev parse : GoString → Result ℕ
parse [] = err (lit "syntax")
parse (c ∷ s) = ok c

abbrev bad_message : Message
bad_message = record { key = lit "k"; value = [] }

abbrev pushes : List ((GoString × GoString × GoString) × ℕ)
pushes = ((b's' ∷ [], b'p' ∷ [], 5 ∷ []), 5) ∷ []

update_goroutine_count-pushed_example :
    (update_goroutine_count parse (map (λ p. message_of parse p.0) pushes)
      ≡ record { samples = map (sample parse) pushes; ended = false })
    × (update_goroutine_count parse (map (λ p. message_of parse p.0) pushes ++ bad_message ∷ [])
        ≡ record { samples = map (sample parse) pushes; ended = true })
update_goroutine_count-pushed_example =
    update_goroutine_count-pushed parse pushes bad_message (lit "syntax") []
      (((ground arith, tt), (ground arith, tt), refl), tt) refl

-- The second chunk is refused.
abbrev send_chunk : GoString → ℕ → MaybeError × ℕ
send_chunk s zero = (none, 1)
send_chunk s (suc n) = (some (lit "broken"), suc n)

abbrev two_reads : File
two_reads = record { reads = lit "ab" ∷ lit "c" ∷ []; ending = end_of_file }

download_file-beginning_example :
    ((missing : GoString) × (concat
            (download_file send_chunk
              (some two_reads)
              []
              (record { chunks = []; state = 0 })).1.chunks
          ++ missing
        ≡ concat two_reads.reads))
    × ((read_file_and_write_to_stream send_chunk
            (some two_reads)
            []
            (record { chunks = []; state = 0 })).0
          ≡ none
        → concat
            (download_file send_chunk
              (some two_reads)
              []
              (record { chunks = []; state = 0 })).1.chunks
          ≡ concat two_reads.reads)
    × ((download_file send_chunk (some two_reads) [] (record { chunks = []; state = 0 })).0 ≡ none)
download_file-beginning_example = download_file-beginning send_chunk two_reads [] 0

camel_to_kebab_case-back_example :
    camel_loop true (camel_to_kebab_case (b'P' ∷ b'a' ∷ b'A' ∷ [])) ≡ b'P' ∷ b'a' ∷ b'A' ∷ []
camel_to_kebab_case-back_example =
    camel_to_kebab_case-back b'P' (b'a' ∷ b'A' ∷ []) (omega arith, omega arith)
      (inr (omega arith, omega arith), (inl (omega arith, omega arith), tt))
