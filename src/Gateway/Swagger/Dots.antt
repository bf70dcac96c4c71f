-- ===== src/Gateway/Swagger/Dots.antt =====
-- Which elements of a path are "..", by either slash.
use panda_go.Prelude.{
  ℕ, ◌≡◌, ◌≢◌, refl, true, false, List, [], ◌∷◌, ◌++◌, map, arith, All, nat_beq, if◌then◌else◌,
  ◌==◌, ==_iff, nat_eq, list_eq, list_beq, Bool-cases, inl, inr, append_assoc, sym, ap, subst,
}
use panda_go.Go.Text.{GoString, split, cons_head}
use panda_go.Go.Text.Split.{split-ne-nil}
use panda_go.Gateway.Swagger.{dots, has_element, slash_of}

abbrev pub NotDots : GoString → Type 0
NotDots p = p ≢ dots

pub has_element-NotDots : (ps : List GoString) → has_element dots ps ≡ false → All NotDots ps
unfolding list_beq
has_element-NotDots [] h = tt
has_element-NotDots (p ∷ ps) h = elim (Bool-cases (p == dots)) [
  | inl e ↦ absurd (ground arith)
  | inr e ↦ (ground (arith, ==_iff p dots), has_element-NotDots ps (ground arith))
]

-- A text in front of the first element
abbrev led_by : GoString → List GoString → List GoString
led_by pre [] = []
led_by pre (p ∷ ps) = (pre ++ p) ∷ ps

led_by-cons_head :
    (pre : GoString) (c : ℕ) (ps : List GoString)
    → ps ≢ []
    → led_by pre (cons_head c ps) ≡ led_by (pre ++ c ∷ []) ps
led_by-cons_head pre c [] h = absurd (h refl)
led_by-cons_head pre c (p ∷ ps) h = ap (λ q. q ∷ ps) (sym (append_assoc pre (c ∷ []) p))

led_by-nil : (ps : List GoString) → led_by [] ps ≡ ps
led_by-nil [] = refl
led_by-nil (p ∷ ps) = refl

backslash-NotDots : (pre p : GoString) → NotDots (pre ++ b'\\' ∷ p)
backslash-NotDots [] p h = ground arith
backslash-NotDots (a ∷ []) p h = ground arith
backslash-NotDots (a ∷ b ∷ []) p h = ground arith
backslash-NotDots (a ∷ b ∷ c ∷ pre) p h = ground arith

cons_backslash-NotDots :
    (pre : GoString) (ps : List GoString)
    → All NotDots ps
    → All NotDots (led_by pre (cons_head b'\\' ps))
cons_backslash-NotDots pre [] h = (backslash-NotDots pre [], tt)
cons_backslash-NotDots pre (p ∷ ps) h = (backslash-NotDots pre p, h.1)

split_at : (c sep : ℕ) (s : GoString) → nat_beq c sep ≡ true → split (c ∷ s) sep ≡ [] ∷ split s sep
unfolding split
split_at c sep s e = ap (λ b. if b then [] ∷ split s sep else cons_head c (split s sep)) e

split_beside :
    (c sep : ℕ) (s : GoString)
    → nat_beq c sep ≡ false
    → split (c ∷ s) sep ≡ cons_head c (split s sep)
unfolding split
split_beside c sep s e = ap (λ b. if b then [] ∷ split s sep else cons_head c (split s sep)) e

abbrev pub Fits : GoString → List GoString → Type 0
Fits q ps = All NotDots (led_by q ps)

abbrev pub coarse : GoString → List GoString
coarse s = split s b'/'

abbrev pub fine : GoString → List GoString
fine s = split (map slash_of s) b'/'

pub later-NotDots :
    (s : GoString)
    → (Fits [] (fine s) → Fits [] (coarse s))
    → All NotDots (fine s)
    → All NotDots (coarse s)
later-NotDots s f k =
    subst (All NotDots) (led_by-nil (coarse s))
      (f (subst (All NotDots) (sym (led_by-nil (fine s))) k))

-- Separating at both slashes finds every ".." that separating at "/" finds.
pub finer-NotDots :
    (s pre : GoString) → All NotDots (led_by pre (fine s)) → All NotDots (led_by pre (coarse s))
finer-NotDots [] pre h = h
finer-NotDots (c ∷ s) pre h = elim (Bool-cases (nat_beq c b'/')) [
  | inl e ↦
      let parted =
        subst (Fits pre) (split_at (slash_of c) b'/' (map slash_of s) (ground arith)) h in
      subst (Fits pre) (sym (split_at c b'/' s e))
        (parted.0, later-NotDots s (finer-NotDots s []) parted.1)
  | inr e ↦ elim (Bool-cases (nat_beq c b'\\')) [
    | inl f ↦
        let parted =
          subst (Fits pre) (split_at (slash_of c) b'/' (map slash_of s) (ground arith)) h in
        let same : c ≡ b'\\' = ground arith in
        subst (Fits pre) (sym (split_beside c b'/' s e)) (
          subst (λ d. Fits pre (cons_head d (coarse s))) (sym same)
            (cons_backslash-NotDots pre (coarse s) (later-NotDots s (finer-NotDots s []) parted.1)))
    | inr f ↦
        let same : slash_of c ≡ c = ground arith in
        let joined : Fits pre (split (c ∷ map slash_of s) b'/') =
          subst (λ d. Fits pre (split (d ∷ map slash_of s) b'/')) same h in
        let longer =
          λ (t : GoString). led_by-cons_head pre c (split t b'/') (split-ne-nil b'/' t) in
        subst (λ ps. Fits pre ps) (sym (split_beside c b'/' s e))
          (subst (All NotDots) (sym (longer s)) (
            finer-NotDots s (pre ++ c ∷ []) (
              subst (All NotDots) (longer (map slash_of s))
                (subst (Fits pre) (split_beside c b'/' (map slash_of s) e) joined))))
  ]
]
