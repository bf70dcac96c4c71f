-- ===== src/Go/Process.antt =====
-- Code that may end the process: log.Fatal writes a line and calls os.Exit.
use panda_go.Prelude.{◌≡◌, refl}
use panda_go.Go.Text.{GoString}

pub data Process {ℓ} (A : Type ℓ) : Type ℓ where
  runs : A → Process A
  exits : GoString → Process A

-- The rest of a function after a call that may end the process
abbrev pub and_then {ℓ κ} : {A : Type ℓ} {B : Type κ} → Process A → (A → Process B) → Process B
and_then (runs a) f = f a
and_then (exits e) f = exits e

pub and_then-eq-runs {ℓ κ} :
    {A : Type ℓ} {B : Type κ} (m : Process A) (f : A → Process B) {b : B}
    → and_then m f ≡ runs b
    → (a : A) × (m ≡ runs a) × (f a ≡ runs b)
and_then-eq-runs (runs a) f h = (a, refl, h)
and_then-eq-runs (exits e) f h = cc

pub runs_inj {ℓ} : {A : Type ℓ} {a b : A} → runs a ≡ runs b → a ≡ b
runs_inj h = cc
