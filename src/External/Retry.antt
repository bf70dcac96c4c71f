-- ===== src/External/Retry.antt =====
-- github.com/avast/retry-go: `retry.Do` with `Attempts(n)` and `LastErrorOnly(true)`. The function
-- is called until it succeeds, at most n times, and the last error is returned. A closure that the
-- program hands over changes the state `S` that it closes over.
use panda_go.Prelude.{ℕ, zero, suc, ◌≡◌, refl, ◌∙◌, sym, none, some}
use panda_go.Go.Error.{Error, MaybeError}

pub record RetryLib (S : Type 0) : Type 0 where
  pub retry_do : ℕ → (S → MaybeError × S) → S → MaybeError × S
  pub succeeds :
      (n : ℕ) (f : S → MaybeError × S) (s t : S)
      → f s ≡ (none, t)
      → retry_do (suc n) f s ≡ (none, t)
  pub tries_again :
      (n : ℕ) (f : S → MaybeError × S) (s t : S) (e : Error)
      → f s ≡ (some e, t)
      → retry_do (suc (suc n)) f s ≡ retry_do (suc n) f t
  pub gives_up :
      (f : S → MaybeError × S) (s t : S) (e : Error)
      → f s ≡ (some e, t)
      → retry_do (suc zero) f s ≡ (some e, t)

-- Whether another attempt follows, with `n` attempts left.
abbrev pub settle : {S : Type 0} → ℕ → MaybeError × S → (S → MaybeError × S) → MaybeError × S
settle zero r again = r
settle (suc n) (none, t) again = (none, t)
settle (suc n) (some e, t) again = again t

unfoldable pub attempts : {S : Type 0} → ℕ → (S → MaybeError × S) → S → MaybeError × S
attempts zero f s = (none, s)
attempts (suc n) f s = settle n (f s) (λ t. attempts n f t)

pub attempts_succeeds :
    {S : Type 0} (n : ℕ) (f : S → MaybeError × S) (s t : S)
    → f s ≡ (none, t)
    → attempts (suc n) f s ≡ (none, t)
unfolding attempts
attempts_succeeds zero f s t h = h
attempts_succeeds (suc n) f s t h = rw h

pub attempts_tries_again :
    {S : Type 0} (n : ℕ) (f : S → MaybeError × S) (s t : S) (e : Error)
    → f s ≡ (some e, t)
    → attempts (suc (suc n)) f s ≡ attempts (suc n) f t
unfolding attempts
attempts_tries_again n f s t e h = rw h

pub attempts_gives_up :
    {S : Type 0} (f : S → MaybeError × S) (s t : S) (e : Error)
    → f s ≡ (some e, t)
    → attempts (suc zero) f s ≡ (some e, t)
unfolding attempts
attempts_gives_up f s t e h = h

-- The interface can be met.
abbrev pub plain_retry : (S : Type 0) → RetryLib S
plain_retry S = record {
  retry_do = attempts;
  succeeds = attempts_succeeds;
  tries_again = attempts_tries_again;
  gives_up = attempts_gives_up;
}

-- What is left to do after the first of two attempts.
abbrev pub second_attempt : {S : Type 0} → (S → MaybeError × S) → MaybeError × S → MaybeError × S
second_attempt f (none, t) = (none, t)
second_attempt f (some e, t) = f t

-- What two attempts come to: the second starts in the state that the first left.
module _ {S : Type 0} (r : RetryLib S) (f : S → MaybeError × S) where
  retry_step :
      (s t : S) (a : MaybeError)
      → f s ≡ (a, t)
      → (b : MaybeError) (u : S) → f t ≡ (b, u)
      → r.retry_do 2 f s ≡ second_attempt f (a, t)
  retry_step s t none h b u k = r.succeeds 1 f s t h
  retry_step s t (some e) h none u k = r.tries_again 0 f s t e h ∙ (r.succeeds 0 f t u k ∙ sym k)
  retry_step s t (some e) h (some d) u k =
      r.tries_again 0 f s t e h ∙ (r.gives_up f t u d k ∙ sym k)

  pub retry_twice : (s : S) → r.retry_do 2 f s ≡ second_attempt f (f s)
  retry_twice s = retry_step s (f s).1 (f s).0 refl (f (f s).1).0 (f (f s).1).1 refl
