-- ===== src/K8s/Choice.antt =====
-- Which namespace stands first after the sort.
use panda_go.Prelude.{
  Bool, true, false, ◌≡◌, ◌≢◌, refl, some, List, [], ◌∷◌, arith, All, ==_iff, ==_refl, nat_eq,
  list_eq, if◌then◌else◌, Bool-cases, inl, inr, ◌==◌,
}
use panda_go.Go.Text.{GoString}
use panda_go.Go.Sort.{sort_slice, insert_by, str_lt, str_lt_trans, str_lt_irrefl, first}
use panda_go.K8s.{before}
use panda_go.Utils.Arrays.{in_array}

module _ (special : GoString) where
  insert-first_special :
      (l : List GoString) → first (insert_by (before special) special l) ≡ some special
  unfolding insert_by before
  insert-first_special [] = refl
  insert-first_special (y ∷ l) = ground (arith, ==_refl special)

  insert-keeps_special :
      (x : GoString) (l : List GoString)
      → x ≢ special
      → first l ≡ some special
      → first (insert_by (before special) x l) ≡ some special
  unfolding insert_by before
  insert-keeps_special x [] ne h = cc
  insert-keeps_special x (y ∷ l) ne h = ground (arith, ==_iff x special, ==_iff y special)

  -- The special namespace comes first, if it is there.
  pub sort-first_special :
      (xs : List GoString)
      → in_array special xs ≡ true
      → first (sort_slice (before special) xs) ≡ some special
  unfolding in_array sort_slice
  sort-first_special [] h = cc
  sort-first_special (x ∷ xs) h = elim (Bool-cases (special == x)) [
    | inl p ↦ rw (← (==_iff special x).0 p) (insert-first_special (sort_slice (before special) xs))
    | inr p ↦
        insert-keeps_special x (sort_slice (before special) xs) (ground (arith, ==_iff special x))
          (sort-first_special xs (rw p at h))
  ]

  -- No namespace of the list stands before `f`.
  abbrev pub NoneBefore : GoString → List GoString → Type 0
  NoneBefore f = All (λ y. str_lt y f ≡ false)

  NoneBefore-weaken :
      (x f : GoString) (ys : List GoString) → str_lt x f ≡ true → NoneBefore f ys → NoneBefore x ys
  NoneBefore-weaken x f [] h hs = tt
  NoneBefore-weaken x f (y ∷ ys) h hs =
      (ground (arith, str_lt_trans y x f, hs.0), NoneBefore-weaken x f ys h hs.1)

  -- `g` is the first of `l`, occurs among `ys`, and none of them stands before it.
  abbrev pub IsLeast : GoString → List GoString → List GoString → Type 0
  IsLeast g l ys = (first l ≡ some g) × (in_array g ys ≡ true) × NoneBefore g ys

  insert_before-first :
      (x f : GoString) (l : List GoString)
      → x ≢ special
      → f ≢ special
      → first l ≡ some f
      → first (insert_by (before special) x l) ≡ (if str_lt x f then some x else some f)
  unfolding insert_by before
  insert_before-first x f [] nx nf h = cc
  insert_before-first x f (y ∷ l) nx nf h = ground (arith, ==_iff x special, ==_iff y special)

  insert-IsLeast :
      (b : Bool) (x f : GoString) (l ys : List GoString)
      → str_lt x f ≡ b
      → x ≢ special
      → f ≢ special
      → IsLeast f l ys
      → IsLeast (if b then x else f) (insert_by (before special) x l) (x ∷ ys)
  unfolding in_array
  insert-IsLeast true x f l ys p nx nf (h, m, hs) = (
    rw (insert_before-first x f l nx nf h) (rw p),
    rw (==_refl x),
    (str_lt_irrefl x, NoneBefore-weaken x f ys p hs),
  )
  insert-IsLeast false x f l ys p nx nf (h, m, hs) =
      (rw (insert_before-first x f l nx nf h) (rw p), ground (arith, m), (p, hs))

  if_ne : (b : Bool) (x f : GoString) → x ≢ special → f ≢ special → (if b then x else f) ≢ special
  if_ne true x f nx nf = nx
  if_ne false x f nx nf = nf

  -- Where the special namespace is missing, the first is the least in the order of strings.
  pub sort-IsLeast :
      (x : GoString) (xs : List GoString)
      → in_array special (x ∷ xs) ≡ false
      → (g : GoString) × IsLeast g (sort_slice (before special) (x ∷ xs)) (x ∷ xs) × (g ≢ special)
  unfolding in_array sort_slice
  sort-IsLeast x [] h =
      (x, (refl, rw (==_refl x), (str_lt_irrefl x, tt)), ground (arith, ==_iff special x))
  sort-IsLeast x (y ∷ ys) h =
      let (f, least, nf) = sort-IsLeast y ys (ground arith) in
      let nx : x ≢ special = ground (arith, ==_iff special x) in
      (
        if str_lt x f then x else f,
        insert-IsLeast (str_lt x f) x f _ (y ∷ ys) refl nx nf least,
        if_ne (str_lt x f) x f nx nf,
      )
