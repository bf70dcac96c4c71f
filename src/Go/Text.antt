-- ===== src/Go/Text.antt =====
-- Go strings as byte sequences, and the functions of package `strings` that the program calls.
-- A separator of `strings.Split` is one byte here, as in every call of the program.
pub mod Split
pub mod Suffix
use Prim.Native.Char.{code}
use panda_go.Prelude.{
  ℕ, ◌+◌, ◌-◌, Bool, true, false, ◌&&◌, String, List, [], ◌∷◌, ◌++◌, map, leb, length, take, drop,
  nat_beq, if◌then◌else◌, list_beq, ◌==◌, nat_eq, list_eq,
}

abbrev pub GoString : Type 0
GoString = List ℕ

-- The bytes of an ASCII literal.
unfoldable pub lit : String → GoString
lit String.[] = []
lit (String.◌∷◌ c s) = code c ∷ lit s

abbrev pub is_empty : GoString → Bool
is_empty [] = true
is_empty (c ∷ s) = false

-- strings.HasSuffix
unfoldable pub has_suffix : GoString → GoString → Bool
unfolding list_beq
has_suffix s suf = leb (length suf) (length s) && (drop (length s - length suf) s == suf)

-- strings.TrimSuffix
unfoldable pub trim_suffix : GoString → GoString → GoString
unfolding has_suffix
trim_suffix s suf = if has_suffix s suf then take (length s - length suf) s else s

abbrev pub cons_head : ℕ → List GoString → List GoString
cons_head c [] = (c ∷ []) ∷ []
cons_head c (p ∷ ps) = (c ∷ p) ∷ ps

-- strings.Split with a one-byte separator
unfoldable pub split : GoString → ℕ → List GoString
split [] sep = [] ∷ []
split (c ∷ s) sep = let rest = split s sep in if nat_beq c sep then [] ∷ rest else cons_head c rest

-- ASCII lower case, by which `equal_fold` compares
unfoldable pub to_lower : ℕ → ℕ
to_lower c = if leb b'A' c && leb c b'Z' then c + 32 else c

-- strings.EqualFold on ASCII text
unfoldable pub equal_fold : GoString → GoString → Bool
unfolding list_beq to_lower
equal_fold s t = map to_lower s == map to_lower t
