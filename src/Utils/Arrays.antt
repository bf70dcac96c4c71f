-- ===== src/Utils/Arrays.antt =====
-- InArray, IsArrayInArray and CmpWithStringListAnyEqualFold of common/utils/utils.go. The element
-- type's `==` stands for reflect.DeepEqual, which is Go's `==` on the strings that the program passes.
use panda_go.Prelude.{
  Bool, true, false, ◌≡◌, ◌↔◌, [], ◌∷◌, List, Eq, ◌==◌, ==_iff, All, if◌then◌else◌, refl,
  Bool-cases, inl, inr, ◌∙◌, sym, ◌≢◌,
}
use mathlib.Core.List.{Mem, mem-cons, not-mem-nil}
use mathlib.Core.Logic.Or
use mathlib.Core.Bool.{Bool-set}
use panda_go.Go.Text.{GoString, equal_fold}

true-ne-false : ◌≢◌ {A = Bool} true false
true-ne-false h = cc

module _ {ℓ} {T : Type ℓ} ⦃e : Eq T⦄ where
  unfoldable pub in_array : T → List T → Bool
  in_array val [] = false
  in_array val (x ∷ xs) = if val == x then true else in_array val xs

  unfoldable pub is_array_in_array : List T → List T → Bool
  is_array_in_array [] large = true
  is_array_in_array (x ∷ xs) large =
      let rest = is_array_in_array xs large in if in_array x large then rest else false

  pub in_array-mem : (val : T) (xs : List T) → (in_array val xs ≡ true) ↔ Mem val xs
  unfolding in_array
  in_array-mem val [] = (λ h. cc, λ m. absurd (not-mem-nil m))
  in_array-mem val (x ∷ xs) = elim (Bool-cases (val == x)) [
    | inl p ↦ rw p (λ _. mem-cons.1 (Or.inl ((==_iff val x).0 p)), λ _. refl)
    | inr p ↦ rw p (
      λ h. mem-cons.1 (Or.inr ((in_array-mem val xs).0 h)),
      λ m.
          Or.elim (Bool-set _ _) (mem-cons.0 m)
            (λ q. absurd (true-ne-false (sym ((==_iff val x).1 q) ∙ p))) (in_array-mem val xs).1,
    )
  ]

  -- IsArrayInArray holds just when every element of the first list occurs in the second.
  pub is_array_in_array-mem :
      (xs ys : List T) → (is_array_in_array xs ys ≡ true) ↔ All (λ x. Mem x ys) xs
  unfolding is_array_in_array
  is_array_in_array-mem [] ys = (λ _. tt, λ _. refl)
  is_array_in_array-mem (x ∷ xs) ys = elim (Bool-cases (in_array x ys)) [
    | inl p ↦ rw p (
      λ h. ((in_array-mem x ys).0 p, (is_array_in_array-mem xs ys).0 h),
      λ a. (is_array_in_array-mem xs ys).1 a.1,
    )
    | inr p ↦ rw p (λ h. absurd (true-ne-false (sym h)), λ a. sym p ∙ (in_array-mem x ys).1 a.0)
  ]

-- CmpWithStringListAnyEqualFold
unfoldable pub cmp_with_string_list_any_equal_fold : GoString → List GoString → Bool
cmp_with_string_list_any_equal_fold key [] = false
cmp_with_string_list_any_equal_fold key (ss ∷ rest) =
    if equal_fold ss key then true else cmp_with_string_list_any_equal_fold key rest
