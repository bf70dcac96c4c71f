-- ===== src/Go/Text/Split.antt =====
-- What `split` returns: its parts hold no separator, and joining them gives the text back.
use panda_go.Prelude.{
  ℕ, ◌≡◌, ◌≢◌, refl, List, [], ◌∷◌, ◌++◌, arith, nat_beq, nat_beq_iff, All, Bool-cases, inl, inr,
}
use panda_go.Go.Text.{GoString, split, cons_head}

abbrev pub Lacks : ℕ → GoString → Type 0
Lacks sep = All (λ c. c ≢ sep)

-- strings.Join with a one-byte separator
abbrev pub join : ℕ → List GoString → GoString
join sep [] = []
join sep (p ∷ []) = p
join sep (p ∷ q ∷ ps) = p ++ sep ∷ join sep (q ∷ ps)

pub split_whole : (sep : ℕ) (p : GoString) → Lacks sep p → split p sep ≡ p ∷ []
unfolding split
split_whole sep [] h = refl
split_whole sep (c ∷ p) h = ground (arith, split_whole sep p h.1)

pub split-append :
    (sep : ℕ) (p s : GoString) → Lacks sep p → split (p ++ sep ∷ s) sep ≡ p ∷ split s sep
unfolding split
split-append sep [] s h = ground arith
split-append sep (c ∷ p) s h = ground (arith, split-append sep p s h.1)

pub split-ne-nil : (sep : ℕ) (s : GoString) → split s sep ≢ []
unfolding split
split-ne-nil sep [] h = ground arith
split-ne-nil sep (c ∷ s) h = ground (arith, split-ne-nil sep s)

join-nil : (sep : ℕ) (ps : List GoString) → ps ≢ [] → join sep ([] ∷ ps) ≡ sep ∷ join sep ps
join-nil sep [] h = absurd (h refl)
join-nil sep (p ∷ ps) h = refl

join-cons_head : (sep c : ℕ) (ps : List GoString) → join sep (cons_head c ps) ≡ c ∷ join sep ps
join-cons_head sep c [] = refl
join-cons_head sep c (p ∷ []) = refl
join-cons_head sep c (p ∷ q ∷ ps) = refl

-- Joining the parts of a split gives the text back.
pub join-split : (sep : ℕ) (s : GoString) → join sep (split s sep) ≡ s
unfolding split
join-split sep [] = refl
join-split sep (c ∷ s) = ground (
  arith,
  join-split sep s,
  nat_beq_iff c sep,
  join-nil sep (split s sep) (split-ne-nil sep s),
  join-cons_head sep c (split s sep),
)

cons_head-Lacks :
    (sep c : ℕ) (ps : List GoString)
    → c ≢ sep
    → All (Lacks sep) ps
    → All (Lacks sep) (cons_head c ps)
cons_head-Lacks sep c [] h hs = ((h, tt), tt)
cons_head-Lacks sep c (p ∷ ps) h hs = ((h, hs.0), hs.1)

-- No part of a split holds the separator.
pub split-Lacks : (sep : ℕ) (s : GoString) → All (Lacks sep) (split s sep)
unfolding split
split-Lacks sep [] = (tt, tt)
split-Lacks sep (c ∷ s) = elim (Bool-cases (nat_beq c sep)) [
  | inl e ↦ rw e (tt, split-Lacks sep s)
  | inr e ↦ rw e (cons_head-Lacks sep c (split s sep) (ground arith) (split-Lacks sep s))
]
