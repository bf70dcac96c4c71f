-- ===== src/Gateway/Swagger/Inside.antt =====
-- The gateway hands out no file outside the directory "proto".
use panda_go.Prelude.{
  ◌≡◌, ◌≢◌, refl, false, none, some, Option, List, [], ◌∷◌, ◌++◌, arith, All, nat_beq,
  if◌then◌else◌, ◌==◌, ==_iff, nat_eq, list_eq, list_beq, Bool-cases, inl, inr, append-nil,
  append_assoc, sym, ap, subst, ◌∙◌,
}
use panda_go.Go.Text.{GoString, lit, split, has_suffix}
use panda_go.Go.Text.Split.{join, Lacks, split-Lacks}
use panda_go.Gateway.{strip_prefix}
use panda_go.Gateway.Swagger.{
  dot, dots, clean_elements, or_dot, join_path, or_whole, contains_dot_dot, Served, not_found,
  refused, serves_file, serve_file, serve_swagger_file,
}
use panda_go.Gateway.Swagger.Dots.{
  NotDots, coarse, fine, has_element-NotDots, later-NotDots, finer-NotDots,
}

-- An element of a file's path
abbrev pub Plain : GoString → Type 0
Plain p = (p ≢ []) × (p ≢ dot) × (p ≢ dots) × Lacks b'/' p

-- What cleaning adds to the elements so far, when none is ".."
clean_elements-Plain :
    (ps done : List GoString)
    → All NotDots ps
    → All (Lacks b'/') ps
    → (qs : List GoString) × (clean_elements ps done ≡ done ++ qs) × All Plain qs
unfolding clean_elements
clean_elements-Plain [] done h l = ([], sym (append-nil done), tt)
clean_elements-Plain ([] ∷ ps) done h l = clean_elements-Plain ps done h.1 l.1
clean_elements-Plain ((c ∷ p) ∷ ps) done h l = elim (Bool-cases ((c ∷ p) == dot)) [
  | inl e ↦ let (qs, k, plain) = clean_elements-Plain ps done h.1 l.1 in (qs, rw e k, plain)
  | inr e ↦
      let (qs, k, plain) = clean_elements-Plain ps (done ++ (c ∷ p) ∷ []) h.1 l.1 in
      let isnt : ((c ∷ p) == dots) ≡ false = ground (arith, ==_iff (c ∷ p) dots, h.0) in
      (
        (c ∷ p) ∷ qs,
        rw (e, isnt) (k ∙ append_assoc done ((c ∷ p) ∷ []) qs),
        ((λ z. ground arith, ground (arith, ==_iff (c ∷ p) dot), h.0, l.0), plain),
      )
]

strip_prefix_back : (pre s rest : GoString) → strip_prefix pre s ≡ some rest → s ≡ pre ++ rest
unfolding strip_prefix
strip_prefix_back [] s rest h = ground arith
strip_prefix_back (p ∷ pre) [] rest h = ground arith
strip_prefix_back (p ∷ pre) (c ∷ s) rest h = elim (Bool-cases (nat_beq p c)) [
  | inl e ↦
      let later =
        strip_prefix_back pre s rest
          (sym (ap (λ b. if b then strip_prefix pre s else none) e) ∙ h) in
      let same : p ≡ c = ground arith in ap (λ d. d ∷ s) (sym same) ∙ ap (λ t. p ∷ t) later
  | inr e ↦
      let gone : none ≡ some rest = sym (ap (λ b. if b then strip_prefix pre s else none) e) ∙ h in
      absurd (ground arith)
]

trimmed-NotDots :
    (s : GoString) (o : Option GoString)
    → strip_prefix (lit "/swagger/") s ≡ o
    → All NotDots (coarse s)
    → All NotDots (coarse (or_whole s o))
unfolding lit split
trimmed-NotDots s none e h = h
trimmed-NotDots s (some rest) e h =
    (subst (λ t. All NotDots (coarse t)) (strip_prefix_back (lit "/swagger/") s rest e) h).1.1

-- A file of the directory
abbrev pub Inside : GoString → GoString → Type 0
Inside directory file = (ps : List GoString) × (file ≡ join b'/' (directory ∷ ps)) × All Plain ps

join_path-Inside :
    (p : GoString) → All NotDots (coarse p) → Inside (lit "proto") (join_path (lit "./proto/") p)
unfolding join_path lit split clean_elements list_beq
join_path-Inside [] h = ([], refl, tt)
join_path-Inside (c ∷ p) h =
    let (ps, k, plain) =
      clean_elements-Plain (coarse (c ∷ p)) (lit "proto" ∷ []) h (split-Lacks b'/' (c ∷ p)) in
    (ps, ap or_dot k, plain)

abbrev joined : GoString → GoString
joined url_path =
    join_path (lit "./proto/") (or_whole url_path (strip_prefix (lit "/swagger/") url_path))

-- What is served for a path with the right ending
abbrev served : GoString → Served
served url_path = serve_file url_path (joined url_path)

abbrev named : GoString → Served → GoString
named file not_found = file
named file refused = file
named file (serves_file name) = name

serve_file-Inside :
    (url_path file : GoString) → served url_path ≡ serves_file file → Inside (lit "proto") file
unfolding serve_file contains_dot_dot
serve_file-Inside url_path file h = elim (Bool-cases (contains_dot_dot url_path)) [
  | inl e ↦ absurd (ground arith)
  | inr e ↦
      let separated = has_element-NotDots (fine url_path) e in
      let clear = later-NotDots url_path (finer-NotDots url_path []) separated in
      let found = trimmed-NotDots url_path (strip_prefix (lit "/swagger/") url_path) refl clear in
      let same : serves_file (joined url_path) ≡ serves_file file =
        sym (ap (λ b. if b then refused else serves_file (joined url_path)) e) ∙ h in
      subst (Inside (lit "proto")) (ap (named file) same) (join_path-Inside _ found)
]

-- Whatever the path of the request, a file that the gateway hands out lies in the directory "proto":
-- below it there is no element ".." in its name, however the path is written.
pub serve_swagger_file-Inside :
    (url_path file : GoString)
    → serve_swagger_file url_path ≡ serves_file file
    → Inside (lit "proto") file
unfolding serve_swagger_file
serve_swagger_file-Inside url_path file h =
    elim (Bool-cases (has_suffix url_path (lit "swagger.json"))) [
      | inl e ↦
          serve_file-Inside url_path file
            (sym (ap (λ b. if b then served url_path else not_found) e) ∙ h)
      | inr e ↦
          let gone : not_found ≡ serves_file file =
            sym (ap (λ b. if b then served url_path else not_found) e) ∙ h in
          absurd (ground arith)
    ]
