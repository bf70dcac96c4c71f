-- ===== src/Limit/Tokens.antt =====
-- What TokenBucket of base/main.go admits, over any sequence of requests.
use panda_go.Prelude.{
  ℕ, ◌≡◌, refl, Bool, true, false, some, List, [], ◌∷◌, Bool-cases, ◌⊎◌, inl, inr,
}
use panda_go.Limit.{Floats, TokenBucket, elapsed, allow}

-- How the comparisons of float64 behave, also where a side is not a number
pub record Ordered {F : Type 0} (fl : Floats F) : Type 0 where
  pub above-itself : (x : F) → fl.above x x ≡ false
  pub above-at_least :
      (x y z : F) → fl.above x y ≡ true → fl.at_least y z ≡ true → fl.at_least x z ≡ true

-- The requests of a run, each with its time and its need
unfoldable pub allow_all :
    {F : Type 0} → Floats F → List (ℕ × F) → TokenBucket F → List Bool × TokenBucket F
allow_all fl [] tb = ([], tb)
allow_all fl ((now, need) ∷ rs) tb =
    let (b, tb') = allow fl now need tb in let (bs, end) = allow_all fl rs tb' in (b ∷ bs, end)

module _ {F : Type 0} (fl : Floats F) where
  -- What is there at the time `now`, less the need
  abbrev remains : ℕ → F → TokenBucket F → F
  remains now need tb =
      fl.minus (fl.plus tb.tokens (fl.times tb.rate (fl.seconds (elapsed now tb.last_refill)))) need

  -- The tokens after a request that passed
  abbrev Held : F → F → F → Type 0
  Held capacity left tokens =
      (fl.at_least tokens fl.nought ≡ true)
      × (fl.above tokens capacity ≡ false)
      × ((tokens ≡ left) ⊎ ((fl.above left capacity ≡ true) × (tokens ≡ capacity)))

  -- What the answers of a run and its last bucket are, request by request
  abbrev pub Judged : List (ℕ × F) → TokenBucket F → List Bool → TokenBucket F → Type 0
  Judged [] tb [] end = tb ≡ end
  Judged ((now, need) ∷ rs) tb (true ∷ bs) end =
      (fl.at_least (remains now need tb) fl.nought ≡ true)
      × ((tokens : F) × Held tb.capacity (remains now need tb) tokens
          × Judged rs (record tb { tokens = tokens; last_refill = some now }) bs end)
  Judged ((now, need) ∷ rs) tb (false ∷ bs) end =
      (fl.at_least (remains now need tb) fl.nought ≡ false) × Judged rs tb bs end
  Judged _ _ _ _ = ⊥

  -- One request
  allow-judged :
      (now : ℕ) (need : F) (tb : TokenBucket F)
      → Ordered fl
      → fl.at_least tb.capacity fl.nought ≡ true
      → ((fl.at_least (remains now need tb) fl.nought ≡ false)
          × (allow fl now need tb ≡ (false, tb)))
        ⊎ ((fl.at_least (remains now need tb) fl.nought ≡ true)
            × ((tokens : F) × Held tb.capacity (remains now need tb) tokens
                × (allow fl now need tb
                    ≡ (true, record tb { tokens = tokens; last_refill = some now }))))
  unfolding allow
  allow-judged now need tb laws full =
      elim (Bool-cases (fl.above (remains now need tb) tb.capacity)) [
        | inl more ↦ inr (
          laws.above-at_least _ tb.capacity fl.nought more full,
          (
            tb.capacity,
            (full, laws.above-itself tb.capacity, inr (more, refl)),
            rw (more, full) refl,
          ),
        )
        | inr most ↦ elim (Bool-cases (fl.at_least (remains now need tb) fl.nought)) [
          | inl enough ↦
              inr (enough, (remains now need tb, (enough, most, inl refl), rw (most, enough) refl))
          | inr short ↦ inl (short, rw (most, short) refl)
        ]
      ]

  Judged-rest :
      (now : ℕ) (need : F) (tb : TokenBucket F) (rs : List (ℕ × F)) (b : Bool)
      (next : TokenBucket F)
      → allow fl now need tb ≡ (b, next)
      → Judged ((now, need) ∷ rs) tb (b ∷ (allow_all fl rs next).0) (allow_all fl rs next).1
      → Judged
          ((now, need) ∷ rs)
          tb
          (allow_all fl ((now, need) ∷ rs) tb).0
          (allow_all fl ((now, need) ∷ rs) tb).1
  unfolding allow_all
  Judged-rest now need tb rs b next e t = rw e t

  -- In any sequence of requests to a token bucket whose capacity is not negative, a request passes
  -- exactly when the tokens, with what has flowed in since the last one that passed and less the
  -- need, are not negative, whatever the capacity; the bucket then holds that, or its capacity
  -- where that is above it, and no more than its capacity and nothing negative; a request that is
  -- refused changes nothing. Sums are those of float64, rounded.
  pub allow_all-Judged :
      Ordered fl
      → (tb : TokenBucket F) (rs : List (ℕ × F)) → fl.at_least tb.capacity fl.nought ≡ true
      → Judged rs tb (allow_all fl rs tb).0 (allow_all fl rs tb).1
  unfolding allow_all
  allow_all-Judged laws tb [] full = refl
  allow_all-Judged laws tb ((now, need) ∷ rs) full = elim (allow-judged now need tb laws full) [
    | inl (short, same) ↦
        Judged-rest now need tb rs false tb same (short, allow_all-Judged laws tb rs full)
    | inr (enough, (tokens, held, made)) ↦
        Judged-rest now need tb rs true (record tb { tokens = tokens; last_refill = some now }) made
          (
            enough,
            (
              tokens,
              held,
              allow_all-Judged laws (record tb { tokens = tokens; last_refill = some now }) rs full,
            ),
          )
  ]
