-- ===== src/Log/Mask.antt =====
-- MaskPhone of common/utils/utils.go. A string is the list of its code points here, since the function
-- goes through runes; `byte_len` is Go's `len` of it.
use panda_go.Prelude.{
  ℕ, zero, suc, ◌+◌, ◌-◌, ◌≤◌, ◌≡◌, refl, ap, ◌∙◌, ◌&&◌, some, List, [], ◌∷◌, arith, if◌then◌else◌,
  ltb, leb, nat_beq, length, get_elem?, inl, inr, Bool-cases,
}

abbrev pub Text : Type 0
Text = List ℕ

-- The bytes of a code point in UTF-8.
abbrev pub rune_len : ℕ → ℕ
rune_len r = if ltb r 128 then 1 else if ltb r 2048 then 2 else if ltb r 65536 then 3 else 4

unfoldable pub byte_len : Text → ℕ
byte_len [] = 0
byte_len (r ∷ rs) = rune_len r + byte_len rs

-- rs[i] = r, which the callers do in range
unfoldable pub set_at {ℓ} : {A : Type ℓ} → ℕ → A → List A → List A
set_at i a [] = []
set_at zero a (x ∷ xs) = a ∷ xs
set_at (suc i) a (x ∷ xs) = x ∷ set_at i a xs

-- The loop of MaskPhone from `i`, with `n` rounds left
unfoldable pub mask_loop : ℕ → ℕ → Text → Text
mask_loop zero i rs = rs
mask_loop (suc n) i rs = mask_loop n (suc i) (set_at i b'*' rs)

-- The numbers pre and suf
abbrev pub kept_before : Text → ℕ
kept_before phone = if leb 10 (byte_len phone) then 3 else 2

abbrev pub kept_after : ℕ
kept_after = 2

-- MaskPhone; the loop has a round for every i from pre up to len(rs) - suf
unfoldable pub mask_phone : Text → Text
mask_phone phone =
    mask_loop (length phone - kept_after - kept_before phone) (kept_before phone) phone

module _ {ℓ} {A : Type ℓ} where
  get_elem?-set_at :
      (i j : ℕ) (a : A) (xs : List A)
      → get_elem? (set_at i a xs) j
        ≡ (if nat_beq i j && ltb i (length xs) then some a else get_elem? xs j)
  unfolding set_at
  get_elem?-set_at i j a [] = ground arith
  get_elem?-set_at zero zero a (x ∷ xs) = ground arith
  get_elem?-set_at zero (suc j) a (x ∷ xs) = ground arith
  get_elem?-set_at (suc i) zero a (x ∷ xs) = ground arith
  get_elem?-set_at (suc i) (suc j) a (x ∷ xs) = ground (arith, get_elem?-set_at i j a xs)

  length-set_at : (i : ℕ) (a : A) (xs : List A) → length (set_at i a xs) ≡ length xs
  unfolding set_at
  length-set_at i a [] = refl
  length-set_at zero a (x ∷ xs) = refl
  length-set_at (suc i) a (x ∷ xs) = ap suc (length-set_at i a xs)

get_elem?-mask_loop :
    (n i j : ℕ) (rs : Text)
    → i + n ≤ length rs
    → get_elem? (mask_loop n i rs) j
      ≡ (if leb i j && ltb j (i + n) then some b'*' else get_elem? rs j)
unfolding mask_loop
get_elem?-mask_loop zero i j rs h = ground arith
get_elem?-mask_loop (suc n) i j rs h = ground (
  arith,
  get_elem?-mask_loop n (suc i) j (set_at i b'*' rs),
  get_elem?-set_at i j b'*' rs,
  length-set_at i b'*' rs,
)

-- The loop with any number `pre` of characters kept in front.
mask_from :
    (pre : ℕ) (phone : Text) (j : ℕ)
    → get_elem? (mask_loop (length phone - 2 - pre) pre phone) j
      ≡ (if leb pre j && ltb (j + 2) (length phone) then some b'*' else get_elem? phone j)
unfolding mask_loop
mask_from pre phone j = elim (Bool-cases (leb (pre + 2) (length phone))) [
  | inl p ↦
      let room : pre + (length phone - 2 - pre) ≡ length phone - 2 = ground (arith, p) in
      get_elem?-mask_loop (length phone - 2 - pre) pre j phone (ground (arith, p))
      ∙ rw room (ground (arith, p))
  | inr p ↦
      let none_left : length phone - 2 - pre ≡ 0 = ground (arith, p) in
      rw (none_left, mask_loop) (ground (arith, p))
]

length-mask_loop : (n i : ℕ) (rs : Text) → length (mask_loop n i rs) ≡ length rs
unfolding mask_loop
length-mask_loop zero i rs = refl
length-mask_loop (suc n) i rs =
    length-mask_loop n (suc i) (set_at i b'*' rs) ∙ length-set_at i b'*' rs

pub length-mask_phone : (phone : Text) → length (mask_phone phone) ≡ length phone
unfolding mask_phone
length-mask_phone phone = length-mask_loop _ _ phone

-- MaskPhone shows the first three characters of a text of ten bytes or more, the first two of a shorter
-- one, and the last two; every other character is an asterisk.
pub get_elem?-mask_phone :
    (phone : Text) (j : ℕ)
    → get_elem? (mask_phone phone) j ≡ (
        if leb (kept_before phone) j && ltb (j + 2) (length phone)
        then some b'*'
        else get_elem? phone j)
unfolding mask_phone
get_elem?-mask_phone phone j = mask_from (kept_before phone) phone j
