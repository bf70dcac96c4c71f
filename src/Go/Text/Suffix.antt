-- ===== src/Go/Text/Suffix.antt =====
-- What `trim_suffix` takes off.
use panda_go.Prelude.{
  ℕ, zero, suc, ◌-◌, ◌≡◌, refl, ap, true, false, [], ◌∷◌, ◌++◌, arith, length, take, drop,
  length-append, take-append_length, ==_refl, ==_iff, leb, nat_eq, list_eq, Bool-cases, inl, inr,
  ◌⊎◌, sym, ◌∙◌,
}
use panda_go.Go.Text.{GoString, has_suffix, trim_suffix}

drop-append_length : (p s : GoString) → drop (length p) (p ++ s) ≡ s
drop-append_length [] s = refl
drop-append_length (c ∷ p) s = drop-append_length p s

length_prefix : (p s : GoString) → length (p ++ s) - length s ≡ length p
length_prefix p s = omega (arith, length-append p s)

leb-length : (p s : GoString) → leb (length s) (length (p ++ s)) ≡ true
leb-length p s = ground (arith, length-append p s)

has_suffix-append : (p s : GoString) → has_suffix (p ++ s) s ≡ true
unfolding has_suffix
has_suffix-append p s = rw (leb-length p s, length_prefix p s, drop-append_length p s) (==_refl s)

-- The suffix of a concatenation comes off.
pub trim_suffix-append : (p s : GoString) → trim_suffix (p ++ s) s ≡ p
unfolding trim_suffix
trim_suffix-append p s = rw (has_suffix-append p s, length_prefix p s) (take-append_length p s)

take-append-drop : (n : ℕ) (s : GoString) → take n s ++ drop n s ≡ s
take-append-drop zero s = refl
take-append-drop (suc n) [] = refl
take-append-drop (suc n) (c ∷ s) = ap (λ t. c ∷ t) (take-append-drop n s)

drop_of_has_suffix :
    (s suf : GoString) → has_suffix s suf ≡ true → drop (length s - length suf) s ≡ suf
unfolding has_suffix
drop_of_has_suffix s suf h = ground (arith, ==_iff (drop (length s - length suf) s) suf)

-- Either the suffix is there and comes off, or the text stays as it is.
pub trim_suffix_cases :
    (s suf : GoString)
    → (s ≡ trim_suffix s suf ++ suf) ⊎ ((has_suffix s suf ≡ false) × (trim_suffix s suf ≡ s))
unfolding trim_suffix
trim_suffix_cases s suf = elim (Bool-cases (has_suffix s suf)) [
  | inl e ↦ inl (
      rw e (
        sym (take-append-drop (length s - length suf) s)
        ∙ ap (λ t. take (length s - length suf) s ++ t) (drop_of_has_suffix s suf e)))
  | inr e ↦ inr (e, rw e refl)
]
