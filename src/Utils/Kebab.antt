-- ===== src/Utils/Kebab.antt =====
-- CamelToKebabCase of common/utils/utils.go, with the ASCII part of package unicode.
use panda_go.Prelude.{
  ℕ, ◌-◌, ◌≤◌, ◌≡◌, refl, Bool, true, false, ◌&&◌, [], ◌∷◌, ◌++◌, arith, ap, ◌∙◌, if◌then◌else◌,
  leb, nat_beq, All, ◌⊎◌, inl, inr,
}
use panda_go.Go.Text.{GoString, to_lower}

unfoldable pub is_upper : ℕ → Bool
is_upper c = leb b'A' c && leb c b'Z'

-- What the loop appends for one rune, at the beginning of the string or later
abbrev pub kebab_rune : Bool → ℕ → GoString
kebab_rune first c =
    if is_upper c then (if first then to_lower c ∷ [] else b'-' ∷ to_lower c ∷ []) else c ∷ []

unfoldable pub kebab_loop : Bool → GoString → GoString
kebab_loop first [] = []
kebab_loop first (c ∷ s) = kebab_rune first c ++ kebab_loop false s

unfoldable pub camel_to_kebab_case : GoString → GoString
camel_to_kebab_case s = kebab_loop true s

-- The way back: a letter at the beginning or after a dash is made a capital.
abbrev pub to_upper : ℕ → ℕ
to_upper c = c - 32

unfoldable pub camel_loop : Bool → GoString → GoString
camel_loop up [] = []
camel_loop true (c ∷ s) = to_upper c ∷ camel_loop false s
camel_loop false (c ∷ s) = if nat_beq c b'-' then camel_loop true s else c ∷ camel_loop false s

abbrev pub IsCapital : ℕ → Type 0
IsCapital c = (b'A' ≤ c) × (c ≤ b'Z')

abbrev pub IsLetter : ℕ → Type 0
IsLetter c = IsCapital c ⊎ ((b'a' ≤ c) × (c ≤ b'z'))

capital_upper : (c : ℕ) → IsCapital c → is_upper c ≡ true
unfolding is_upper
capital_upper c h = ground arith

small_upper : (c : ℕ) → (b'a' ≤ c) × (c ≤ b'z') → is_upper c ≡ false
unfolding is_upper
small_upper c h = ground arith

to_upper-to_lower : (c : ℕ) → IsCapital c → to_upper (to_lower c) ≡ c
unfolding to_lower
to_upper-to_lower c h = ground arith

small_dash : (c : ℕ) → (b'a' ≤ c) × (c ≤ b'z') → nat_beq c b'-' ≡ false
small_dash c h = ground arith

kebab_rune-capital :
    (c : ℕ) (rest : GoString)
    → IsCapital c
    → camel_loop false (kebab_rune false c ++ rest) ≡ c ∷ camel_loop false rest
unfolding camel_loop
kebab_rune-capital c rest h =
    rw (capital_upper c h) (ap (λ d. d ∷ camel_loop false rest) (to_upper-to_lower c h))

kebab_rune-small :
    (c : ℕ) (rest : GoString)
    → (b'a' ≤ c) × (c ≤ b'z')
    → camel_loop false (kebab_rune false c ++ rest) ≡ c ∷ camel_loop false rest
unfolding camel_loop
kebab_rune-small c rest h = rw (small_upper c h, small_dash c h) refl

kebab_loop-back : (s : GoString) → All IsLetter s → camel_loop false (kebab_loop false s) ≡ s
unfolding kebab_loop camel_loop
kebab_loop-back [] h = refl
kebab_loop-back (c ∷ s) (inl up, h) =
    kebab_rune-capital c (kebab_loop false s) up ∙ ap (λ l. c ∷ l) (kebab_loop-back s h)
kebab_loop-back (c ∷ s) (inr low, h) =
    kebab_rune-small c (kebab_loop false s) low ∙ ap (λ l. c ∷ l) (kebab_loop-back s h)

-- A name of ASCII letters that begins with a capital, as the names of the generated clients do, can
-- be read back from its kebab case.
pub camel_to_kebab_case-back :
    (c : ℕ) (s : GoString)
    → IsCapital c
    → All IsLetter s
    → camel_loop true (camel_to_kebab_case (c ∷ s)) ≡ c ∷ s
unfolding camel_to_kebab_case kebab_loop camel_loop
camel_to_kebab_case-back c s h k = rw (capital_upper c h) (
    ap (λ d. d ∷ camel_loop false (kebab_loop false s)) (to_upper-to_lower c h)
    ∙ ap (λ l. c ∷ l) (kebab_loop-back s k))
