-- ===== src/Utils/Target.antt =====
-- Service targets: GetTarget and GetSvcNameAndNsFromTarget of common/utils/utils.go.
use panda_go.Prelude.{◌≡◌, sym, ap, ◌∙◌, [], ◌∷◌, ◌++◌, List, append_assoc, inl, inr, All, ◌⊎◌}
use panda_go.Go.Text.{GoString, lit, split, trim_suffix}
use panda_go.Go.Text.Split.{Lacks, join, split_whole, split-append, join-split, split-Lacks}
use panda_go.Go.Text.Suffix.{trim_suffix-append, trim_suffix_cases}
use panda_go.Go.Error.{Result, ok, err}

abbrev pub dot : GoString
dot = b'.' ∷ []

-- GetTarget
unfoldable pub get_target : GoString → GoString → GoString
get_target service_name namespace = service_name ++ dot ++ namespace ++ lit ":50051"

-- The two parts, if there are two
unfoldable pub two_parts : List GoString → Result (GoString × GoString)
two_parts (s ∷ ns ∷ []) = ok (s, ns)
two_parts _ = err (lit "parse target failed")

-- GetSvcNameAndNsFromTarget
unfoldable pub get_svc_name_and_ns_from_target : GoString → Result (GoString × GoString)
unfolding two_parts
get_svc_name_and_ns_from_target target = two_parts (split (trim_suffix target (lit ":50051")) b'.')

-- A target that was built from a name and a namespace without dots is taken apart into them.
pub target_round_trip :
    (s ns : GoString)
    → Lacks b'.' s
    → Lacks b'.' ns
    → get_svc_name_and_ns_from_target (get_target s ns) ≡ ok (s, ns)
unfolding get_svc_name_and_ns_from_target get_target
target_round_trip s ns hs hns = rw (
  trim_suffix-append (s ++ dot ++ ns) (lit ":50051"),
  append_assoc s dot ns,
  split-append b'.' s ns hs,
  split_whole b'.' ns hns,
)

two_parts_inv :
    (ps : List GoString) (s ns : GoString) → two_parts ps ≡ ok (s, ns) → ps ≡ s ∷ ns ∷ []
unfolding two_parts
two_parts_inv [] s ns h = cc
two_parts_inv (p ∷ []) s ns h = cc
two_parts_inv (p ∷ q ∷ []) s ns h = cc
two_parts_inv (p ∷ q ∷ r ∷ ps) s ns h = cc

split_two :
    (t s ns : GoString)
    → two_parts (split t b'.') ≡ ok (s, ns)
    → (t ≡ s ++ dot ++ ns) × Lacks b'.' s × Lacks b'.' ns
split_two t s ns h =
    let e = two_parts_inv (split t b'.') s ns h in
    let parts : All (Lacks b'.') (s ∷ ns ∷ []) = rw e at (split-Lacks b'.' t) in
    (sym (join-split b'.' t) ∙ ap (join b'.') e ∙ sym (append_assoc s dot ns), parts.0, parts.1.0)

-- What is taken apart spells the target, with or without its port, and has no further dots.
pub parse_target_sound :
    (target s ns : GoString)
    → get_svc_name_and_ns_from_target target ≡ ok (s, ns)
    → ((target ≡ get_target s ns) ⊎ (target ≡ s ++ dot ++ ns)) × Lacks b'.' s × Lacks b'.' ns
unfolding get_svc_name_and_ns_from_target get_target
parse_target_sound target s ns h =
    let (e, hs, hns) = split_two (trim_suffix target (lit ":50051")) s ns h in
    elim (trim_suffix_cases target (lit ":50051")) [
      | inl p ↦ (inl (p ∙ ap (λ t. t ++ lit ":50051") e), hs, hns)
      | inr (_, p) ↦ (inr (sym p ∙ e), hs, hns)
    ]
