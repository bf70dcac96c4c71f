-- ===== src/Limit/Leaks.antt =====
-- What a leaky bucket admits: what has flowed out is added to what it holds, so that it only fills.
use panda_go.Prelude.{
  ℕ, ◌+◌, ◌-◌, ◌*◌, ◌≤◌, ◌≡◌, not, refl, Bool, true, false, some, List, [], ◌∷◌, arith,
  if◌then◌else◌, ltb, sym, ◌∙◌, All, length, replicate,
}
use native.Mathlib.Nat.{mul-le-mul_right}
use panda_go.Limit.{LeakyBucket, max_duration, elapsed, allow_leaky, answer_second}

cut_mono : (m x y : ℕ) → x ≤ y → (if ltb m x then m else x) ≤ (if ltb m y then m else y)
cut_mono m x y h = ground arith

elapsed_mono :
    (last now later : ℕ) → now ≤ later → elapsed now (some last) ≤ elapsed later (some last)
elapsed_mono last now later h = cut_mono max_duration (now - last) (later - last) (omega arith)

-- What a request would make the bucket hold
abbrev held_with : ℕ → ℕ → LeakyBucket → ℕ
held_with now need lb = lb.storage2_process + elapsed now (some lb.last_leak_time) * lb.rate + need

not-false : (b : Bool) → not b ≡ false → b ≡ true
not-false true h = refl
not-false false h = ground arith

overflows :
    (now need : ℕ) (lb : LeakyBucket)
    → (allow_leaky now need lb).0 ≡ false
    → ltb lb.bucket_size (held_with now need lb) ≡ true
unfolding allow_leaky
overflows now need lb h =
    not-false _ (sym (answer_second (ltb lb.bucket_size (held_with now need lb)) lb _) ∙ h)

more_overflows :
    (size s a b need more : ℕ)
    → a ≤ b
    → need ≤ more
    → ltb size (s + a + need) ≡ true
    → ltb size (s + b + more) ≡ true
more_overflows size s a b need more h k over = ground arith

refuses :
    (now need : ℕ) (lb : LeakyBucket)
    → ltb lb.bucket_size (held_with now need lb) ≡ true
    → allow_leaky now need lb ≡ (false, lb)
unfolding allow_leaky
refuses now need lb over = rw over refl

still_refuses :
    (now later need more : ℕ) (lb : LeakyBucket)
    → (allow_leaky now need lb).0 ≡ false
    → now ≤ later
    → need ≤ more
    → allow_leaky later more lb ≡ (false, lb)
still_refuses now later need more lb h k l = refuses later more lb (
    more_overflows lb.bucket_size lb.storage2_process
      (elapsed now (some lb.last_leak_time) * lb.rate)
      (elapsed later (some lb.last_leak_time) * lb.rate) need more
      (mul-le-mul_right lb.rate (elapsed_mono lb.last_leak_time now later k)) l
      (overflows now need lb h))

-- The requests of a run, each with its time and its need
unfoldable pub allow_leaky_all : List (ℕ × ℕ) → LeakyBucket → List Bool × LeakyBucket
allow_leaky_all [] lb = ([], lb)
allow_leaky_all ((now, need) ∷ rs) lb =
    let (b, next) = allow_leaky now need lb in
    let (bs, end) = allow_leaky_all rs next in (b ∷ bs, end)

-- Every request comes no earlier than `now` and asks for no less than `need`.
abbrev pub Later : ℕ → ℕ → ℕ × ℕ → Type 0
Later now need (later, more) = (now ≤ later) × (need ≤ more)

-- Once a leaky bucket has refused a request, it refuses every request that comes later and asks for
-- no less, however long the bucket has been left alone, and never changes again.
pub allow_leaky_all-stuck :
    (now need : ℕ) (lb : LeakyBucket) (rs : List (ℕ × ℕ))
    → (allow_leaky now need lb).0 ≡ false
    → All (Later now need) rs
    → allow_leaky_all rs lb ≡ (replicate (length rs) false, lb)
unfolding allow_leaky_all
allow_leaky_all-stuck now need lb [] h k = refl
allow_leaky_all-stuck now need lb ((later, more) ∷ rs) h ((t, n), k) =
    rw (still_refuses now later need more lb h t n, allow_leaky_all-stuck now need lb rs h k) refl
