-- ===== src/Gateway/Paths.antt =====
-- What RemovePrefix leaves of a path.
use panda_go.Prelude.{ℕ, ◌≡◌, refl, true, none, some, [], ◌∷◌, ◌++◌, nat_beq, arith, ap, ◌∙◌}
use panda_go.Go.Text.{GoString, lit}
use panda_go.Gateway.{strip_prefix, or_keep, remove_first, remove_prefix}

-- The pattern occurs nowhere in the text.
abbrev pub Avoids : GoString → GoString → Type 0
Avoids pattern [] = Unit
Avoids pattern (c ∷ s) = (strip_prefix pattern (c ∷ s) ≡ none) × Avoids pattern s

remove_first_absent : (pattern s : GoString) → Avoids pattern s → remove_first pattern s ≡ s
unfolding remove_first
remove_first_absent pattern [] h = refl
remove_first_absent pattern (c ∷ s) (h, k) =
    ap (λ o. or_keep c o (remove_first pattern s)) h
    ∙ ap (λ l. c ∷ l) (remove_first_absent pattern s k)

strip_prefix-append : (p s : GoString) → strip_prefix p (p ++ s) ≡ some s
unfolding strip_prefix
strip_prefix-append [] s = refl
strip_prefix-append (c ∷ p) s =
    let same : nat_beq c c ≡ true = ground arith in rw same (strip_prefix-append p s)

remove_first-append : (c : ℕ) (p s : GoString) → remove_first (c ∷ p) ((c ∷ p) ++ s) ≡ s
unfolding remove_first
remove_first-append c p s =
    ap (λ o. or_keep c o (remove_first (c ∷ p) (p ++ s))) (strip_prefix-append (c ∷ p) s)

abbrev pub swagger_prefix : GoString
swagger_prefix = lit "/panda-gin-swagger"

abbrev pub gateway_prefix : GoString
gateway_prefix = lit "/panda-grpc-gw"

gateway_prefix-Avoids :
    (p : GoString) → Avoids swagger_prefix p → Avoids swagger_prefix (gateway_prefix ++ p)
unfolding strip_prefix lit
gateway_prefix-Avoids p h = (
  refl,
  (
    refl,
    (
      refl,
      (refl, (refl, (refl, (refl, (refl, (refl, (refl, (refl, (refl, (refl, (refl, h))))))))))),
    ),
  ),
)

-- RemovePrefix leaves a path in which neither prefix occurs as it is, and takes either prefix from
-- the front of such a path.
pub remove_prefix-front :
    (path : GoString)
    → Avoids swagger_prefix path
    → Avoids gateway_prefix path
    → (remove_prefix path ≡ path)
      × (remove_prefix (swagger_prefix ++ path) ≡ path)
      × (remove_prefix (gateway_prefix ++ path) ≡ path)
unfolding remove_prefix lit
remove_prefix-front path h k =
    let plain = remove_first_absent gateway_prefix path k in
    (
      ap (remove_first gateway_prefix) (remove_first_absent swagger_prefix path h) ∙ plain,
      ap (remove_first gateway_prefix) (remove_first-append _ _ path) ∙ plain,
      ap (remove_first gateway_prefix) (
            remove_first_absent swagger_prefix (gateway_prefix ++ path)
              (gateway_prefix-Avoids path h))
          ∙ remove_first-append _ _ path,
    )
