-- ===== src/Server/Downloads.antt =====
-- When DownloadPprofFile succeeds.
use panda_go.Prelude.{
  ℕ, ◌≡◌, ◌≢◌, refl, none, some, Option, List, [], ◌∷◌, ◌++◌, arith, All, sym, subst, ap, ◌∙◌,
}
use panda_go.Go.Text.{GoString, lit}
use panda_go.Go.Error.{MaybeError}
use panda_go.Go.Outcome.{Outcome, returns, >>=-eq-returns, returns_inj}
use panda_go.Server.{
  Profiles, Download, choose_types, write_profile, write_profiles, write_created, send_content,
  answer_download, download_pprof_file,
}

module _ {Z P : Type 0} (lib : Profiles Z P) where
  abbrev pub Known : GoString → Type 0
  Known t = (p : P) × (lib.lookup t ≡ some p)

  write_profile-Known :
      (t : GoString) (o : Option P) (z y : Z)
      → lib.lookup t ≡ o
      → write_profile lib o z ≡ returns y
      → Known t
  write_profile-Known t none z y e h = ground arith
  write_profile-Known t (some p) z y e h = (p, e)

  differ : {A : Type 0} (a : A) → some a ≢ none
  differ a k = ground arith

  write_created-Known :
      (t : GoString) (rest : Z → Outcome (MaybeError × Z)) (e : MaybeError) (z y : Z)
      → write_created lib t rest e z ≡ returns (none, y)
      → Known t × ((x : Z) × (rest x ≡ returns (none, y)))
  write_created-Known t rest (some e) z y h = absurd (differ e (ap (λ r. r.0) (returns_inj h)))
  write_created-Known t rest none z y h =
      let (x, k, l) = >>=-eq-returns (write_profile lib (lib.lookup t) z) _ h in
      (write_profile-Known t (lib.lookup t) z x refl k, (x, l))

  write_profiles-Known :
      (ts : List GoString) (z y : Z) → write_profiles lib ts z ≡ returns (none, y) → All Known ts
  unfolding write_profiles
  write_profiles-Known [] z y h = tt
  write_profiles-Known (t ∷ ts) z y h =
      let (e, z') = lib.create t z in
      let (known, (x, rest)) = write_created-Known t (λ u. write_profiles lib ts u) e z' y h in
      (known, write_profiles-Known ts x y rest)

  -- A download without an error has sent one chunk, which is not empty.
  abbrev pub OneChunk : Download → Type 0
  OneChunk d = (c : ℕ) × (content : GoString) × (d.sent ≡ (c ∷ content) ∷ [])

  send_content-OneChunk :
      (content : GoString) (d : Download) → send_content lib content ≡ (none, d) → OneChunk d
  send_content-OneChunk [] d h = absurd (differ _ (ap (λ r. r.0) h))
  send_content-OneChunk (c ∷ content) d h = (c, content, ap (λ r. r.1.sent) (sym h))

  answered :
      (r : MaybeError × Z) (d : Download)
      → answer_download lib r ≡ (none, d)
      → (r.0 ≡ none) × OneChunk d
  answered (some e, z) d h = absurd (differ e (ap (λ q. q.0) h))
  answered (none, z) d h = (refl, send_content-OneChunk (lib.bytes (lib.close z)) d h)

  -- A download without an error was asked for with a request, has found a profile of every type of
  -- the request (of every type there is, when the request names none), and has sent one chunk, which
  -- is not empty.
  pub download_pprof_file-sends :
      (keys : List GoString) (req : Option (List GoString)) (d : Download)
      → download_pprof_file lib keys req ≡ returns (none, d)
      → (types : List GoString) × (req ≡ some types)
        × All Known (choose_types keys types)
        × OneChunk d
  unfolding download_pprof_file
  download_pprof_file-sends keys none d h = absurd (differ _ (ap (λ r. r.0) (returns_inj h)))
  download_pprof_file-sends keys (some types) d h =
      let ((e, z), k, l) =
        >>=-eq-returns (write_profiles lib (choose_types keys types) lib.new_zip) _ h in
      let (fine, chunk) = answered (e, z) d (returns_inj l) in
      let wrote : write_profiles lib (choose_types keys types) lib.new_zip ≡ returns (none, z) =
        k ∙ ap (λ x. returns (x, z)) fine in
      (types, refl, write_profiles-Known (choose_types keys types) lib.new_zip z wrote, chunk)

  All-middle : {A : Type 0} (Q : A → Type 0) (xs ys : List A) (a : A) → All Q (xs ++ a ∷ ys) → Q a
  All-middle Q [] ys a h = h.0
  All-middle Q (x ∷ xs) ys a h = All-middle Q xs ys a h.1

  -- Where runtime/pprof has no profile of the name "profile", which is among the types of the
  -- protocol, a download that names no types never ends without an error, in whatever order the
  -- types are visited: it panics or returns an error.
  pub download_pprof_file-fails :
      (before after : List GoString) (d : Download)
      → lib.lookup (lit "profile") ≡ none
      → download_pprof_file lib (before ++ lit "profile" ∷ after) (some []) ≢ returns (none, d)
  download_pprof_file-fails before after d missing h =
      let keys : List GoString = before ++ lit "profile" ∷ after in
      let (types, same, known, _) = download_pprof_file-sends keys (some []) d h in
      let none_named : [] ≡ types = cc in
      let all = subst (λ ts. All Known (choose_types keys ts)) (sym none_named) known in
      let (p, found) = All-middle Known before after (lit "profile") all in
      differ p (sym found ∙ missing)
