-- ===== src/Limit.antt =====
-- The rate limiters of base/main.go: TokenBucket and LeakyBucket. Times are nanoseconds of the
-- monotonic clock. The operations of float64 are parameters of TokenBucket. LeakyBucket counts in
-- multiples of a small unit in place of float64, for requests that ask for no negative amount.
pub mod Tokens
pub mod Leaks
use panda_go.Prelude.{
  ℕ, ◌+◌, ◌-◌, ◌*◌, ◌^◌, Bool, true, false, Option, none, some, if◌then◌else◌, leb, ltb, not, ◌≡◌,
  refl,
}

-- A time.Duration ends here, and Sub gives this for times that are further apart.
abbrev pub max_duration : ℕ
max_duration = 2 ^ 63 - 1

-- now.Sub(last): the zero time.Time is centuries before every other
abbrev pub elapsed : ℕ → Option ℕ → ℕ
elapsed now none = max_duration
elapsed now (some last) = if ltb max_duration (now - last) then max_duration else now - last

-- The operations of float64 that the limiter uses; `seconds` is Duration.Seconds.
pub record Floats (F : Type 0) : Type 0 where
  pub plus : F → F → F
  pub minus : F → F → F
  pub times : F → F → F
  pub seconds : ℕ → F
  pub above : F → F → Bool
  pub at_least : F → F → Bool
  pub nought : F

pub record TokenBucket (F : Type 0) : Type 0 where
  pub rate : F
  pub capacity : F
  pub tokens : F
  pub last_refill : Option ℕ

-- NewTokenBucket
abbrev pub new_token_bucket : {F : Type 0} → F → F → TokenBucket F
new_token_bucket rate capacity = record {
  rate = rate;
  capacity = capacity;
  tokens = capacity;
  last_refill = none;
}

-- TokenBucket.Allow: what is there less what is needed, cut to the capacity; the bucket changes only
-- when that is not negative
unfoldable pub allow : {F : Type 0} → Floats F → ℕ → F → TokenBucket F → Bool × TokenBucket F
allow fl now need tb =
    let there = fl.plus tb.tokens (fl.times tb.rate (fl.seconds (elapsed now tb.last_refill))) in
    let left = fl.minus there need in
    let tmp_token = if fl.above left tb.capacity then tb.capacity else left in
    if fl.at_least tmp_token fl.nought
    then (true, record tb { tokens = tmp_token; last_refill = some now })
    else (false, tb)

pub record LeakyBucket : Type 0 where
  pub rate : ℕ
  pub bucket_size : ℕ
  pub storage2_process : ℕ
  pub last_leak_time : ℕ

-- NewLeakyBucket, at the time `now`
abbrev pub new_leaky_bucket : ℕ → ℕ → ℕ → LeakyBucket
new_leaky_bucket now rate bucket_size = record {
  rate = rate;
  bucket_size = bucket_size;
  storage2_process = 0;
  last_leak_time = now;
}

-- LeakyBucket.Allow: the sum is never negative here, so that the case of a negative one is empty
unfoldable pub allow_leaky : ℕ → ℕ → LeakyBucket → Bool × LeakyBucket
allow_leaky now need lb =
    let sum = lb.storage2_process + elapsed now (some lb.last_leak_time) * lb.rate + need in
    if ltb lb.bucket_size sum
    then (false, lb)
    else (true, record lb { storage2_process = sum; last_leak_time = now })

-- What a limiter answers, with the state after either answer
pub answer_first :
    {A : Type 0} (c : Bool) (x y : A) → (if◌then◌else◌ {A = Bool × A} c (true, x) (false, y)).0 ≡ c
answer_first true x y = refl
answer_first false x y = refl

pub answer_second :
    {A : Type 0} (c : Bool) (x y : A)
    → (if◌then◌else◌ {A = Bool × A} c (false, x) (true, y)).0 ≡ not c
answer_second true x y = refl
answer_second false x y = refl
