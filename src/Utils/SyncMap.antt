-- ===== src/Utils/SyncMap.antt =====
-- The helpers of common/utils/utils.go between `map[string]string` and `sync.Map`, whose values may be
-- of any type.
use panda_go.Prelude.{
  ◌≡◌, refl, ◌∙◌, Option, none, some, [], ◌∷◌, arith, Eq, ==_iff, nat_eq, list_eq,
}
use panda_go.Go.Text.{GoString}
use panda_go.Go.Map.{GoMap, load, store, delete, load-store, load-delete}

-- A value of a sync.Map: a string, or something of another type.
pub data Value (X : Type 0) : Type 0 where
  text : GoString → Value X
  other : X → Value X

module _ {ℓ} {K V : Type ℓ} ⦃e : Eq K⦄ where
  -- The Range of ClearSyncMap, which deletes the keys that it meets
  unfoldable pub delete_all : GoMap K V → GoMap K V → GoMap K V
  delete_all [] m = m
  delete_all ((k, v) ∷ rest) m = delete_all rest (delete k m)

  -- ClearSyncMap
  unfoldable pub clear_sync_map : GoMap K V → GoMap K V
  unfolding delete_all
  clear_sync_map m = delete_all m m

  -- The value of `k` once the keys of `ks` are gone.
  load-delete_all :
      (k : K) (ks m : GoMap K V)
      → load k (delete_all ks m) ≡ elim (load k ks) [ none ↦ load k m | some v ↦ none ]
  unfolding delete_all load
  load-delete_all k [] m = refl
  load-delete_all k ((j, v) ∷ rest) m =
      ground (arith, load-delete_all k rest (delete j m), load-delete j k m)

  -- After ClearSyncMap no key has a value.
  pub load-clear_sync_map : (k : K) (m : GoMap K V) → load k (clear_sync_map m) ≡ none
  unfolding clear_sync_map
  load-clear_sync_map k m = ground (arith, load-delete_all k m m)

module _ {X : Type 0} where
  -- StorSyncMapFromNormalMap
  unfoldable pub stor_sync_map_from_normal_map :
      GoMap GoString GoString → GoMap GoString (Value X) → GoMap GoString (Value X)
  stor_sync_map_from_normal_map [] m = m
  stor_sync_map_from_normal_map ((k, v) ∷ rest) m =
      stor_sync_map_from_normal_map rest (store k (text v) m)

  abbrev pub keep_text : GoString → Value X → GoMap GoString GoString → GoMap GoString GoString
  keep_text k (text s) m = store k s m
  keep_text k (other x) m = m

  -- The Range of GetNormalMapFromSyncMap, over the entries that it meets
  unfoldable pub collect_texts :
      GoMap GoString (Value X) → GoMap GoString GoString → GoMap GoString GoString
  collect_texts [] m = m
  collect_texts ((k, v) ∷ rest) m = collect_texts rest (keep_text k v m)

  -- GetNormalMapFromSyncMap
  unfoldable pub get_normal_map_from_sync_map : GoMap GoString (Value X) → GoMap GoString GoString
  unfolding collect_texts
  get_normal_map_from_sync_map m = collect_texts m []

-- No key stands twice, as in every map.
abbrev pub Unique {ℓ} : {K V : Type ℓ} ⦃e : Eq K⦄ → GoMap K V → Type ℓ
Unique [] = Unit
Unique ((k, v) ∷ m) = (load k m ≡ none) × Unique m

abbrev pub as_text : {X : Type 0} → Option (Value X) → Option GoString
as_text none = none
as_text (some (text s)) = some s
as_text (some (other x)) = none

abbrev pub or_else {ℓ} : {A : Type ℓ} → Option A → Option A → Option A
or_else (some a) o = some a
or_else none o = o

-- For a map with no key twice, StorSyncMapFromNormalMap gives its keys their values, and leaves the
-- values of all others.
pub load-stor_sync_map :
    {X : Type 0} (k : GoString) (n : GoMap GoString GoString) (m : GoMap GoString (Value X))
    → Unique n
    → load k (stor_sync_map_from_normal_map n m)
      ≡ elim (load k n) [ none ↦ load k m | some v ↦ some (text v) ]
unfolding stor_sync_map_from_normal_map load
load-stor_sync_map k [] m u = refl
load-stor_sync_map k ((j, v) ∷ rest) m u = ground (
  arith,
  load-stor_sync_map k rest (store j (text v) m) u.1,
  load-store j k (text v) m,
  ==_iff j k,
)

load-collect_texts :
    {X : Type 0} (k : GoString) (m : GoMap GoString (Value X)) (n : GoMap GoString GoString)
    → Unique m
    → load k (collect_texts m n)
      ≡ elim (load k m) [ none ↦ load k n | some v ↦ or_else (as_text (some v)) (load k n) ]
unfolding collect_texts load
load-collect_texts k [] n u = refl
load-collect_texts k ((j, text s) ∷ rest) n u =
    ground (arith, load-collect_texts k rest (store j s n) u.1, load-store j k s n, ==_iff j k)
load-collect_texts k ((j, other x) ∷ rest) n u =
    ground (arith, load-collect_texts k rest n u.1, ==_iff j k)

text_or_none :
    {X : Type 0} (o : Option (Value X))
    → elim o [ none ↦ none | some v ↦ or_else (as_text (some v)) none ] ≡ as_text o
text_or_none none = refl
text_or_none (some (text s)) = refl
text_or_none (some (other x)) = refl

-- Of a map with no key twice, GetNormalMapFromSyncMap keeps the values that are strings, and drops the
-- others.
pub load-get_normal_map :
    {X : Type 0} (k : GoString) (m : GoMap GoString (Value X))
    → Unique m
    → load k (get_normal_map_from_sync_map m) ≡ as_text (load k m)
unfolding get_normal_map_from_sync_map load
load-get_normal_map k m u = load-collect_texts k m [] u ∙ text_or_none (load k m)
