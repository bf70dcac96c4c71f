-- ===== src/Go/Map.antt =====
-- Go's `map` and `sync.Map` as association lists. The order of the entries is the order in which
-- a `range` loop meets them; Go leaves it open, so theorems about such loops hold for every list.
use panda_go.Prelude.{
  Bool, true, false, ◌≡◌, refl, Option, none, some, List, [], ◌∷◌, ◌++◌, arith, if◌then◌else◌, Eq,
  ◌==◌, ==_iff, ==_refl, ==_ne, ◌≢◌,
}

abbrev pub GoMap {ℓ} : Type ℓ → Type ℓ → Type ℓ
GoMap K V = List (K × V)

module _ {ℓ} {K V : Type ℓ} ⦃e : Eq K⦄ where
  -- m[k], Load
  unfoldable pub load : K → GoMap K V → Option V
  load k [] = none
  load k ((j, v) ∷ m) = if j == k then some v else load k m

  -- delete(m, k), Delete
  unfoldable pub delete : K → GoMap K V → GoMap K V
  delete k [] = []
  delete k ((j, v) ∷ m) = let rest = delete k m in if j == k then rest else (j, v) ∷ rest

  -- m[k] = v, Store
  unfoldable pub store : K → V → GoMap K V → GoMap K V
  unfolding delete
  store k v m = (k, v) ∷ delete k m

  pub load-delete :
      (k j : K) (m : GoMap K V) → load j (delete k m) ≡ (if k == j then none else load j m)
  unfolding load delete
  load-delete k j [] = ground arith
  load-delete k j ((i, v) ∷ m) =
      ground (arith, load-delete k j m, ==_iff i k, ==_iff i j, ==_iff k j)

  pub load-store :
      (k j : K) (v : V) (m : GoMap K V)
      → load j (store k v m) ≡ (if k == j then some v else load j m)
  unfolding load store
  load-store k j v m = ground (arith, load-delete k j m)

  pub load-store_self : (k : K) (v : V) (m : GoMap K V) → load k (store k v m) ≡ some v
  load-store_self k v m = rw (load-store k k v m, ==_refl k)

  pub load-store_ne : (k j : K) (v : V) (m : GoMap K V) → k ≢ j → load j (store k v m) ≡ load j m
  load-store_ne k j v m h = rw (load-store k j v m, ==_ne k j h)

  -- The key occurs in the map.
  unfoldable pub has_key : K → GoMap K V → Bool
  unfolding load
  has_key k m = elim (load k m) [ none ↦ false | some v ↦ true ]

  pub load-append :
      (k : K) (m n : GoMap K V)
      → load k (m ++ n) ≡ elim (load k m) [ none ↦ load k n | some v ↦ some v ]
  unfolding load
  load-append k [] n = refl
  load-append k ((j, v) ∷ m) n = ground (arith, load-append k m n)
