-- ===== src/Utils/Contexts/Copied.antt =====
-- What CopyContext returns.
use panda_go.Prelude.{◌≡◌, refl, Option, none, some}
use panda_go.Go.Outcome.{returns, panics, ◌>>=◌}
use panda_go.Utils.Contexts.{Metadata, copy_context, derive}

-- CopyContext never makes a copy: it returns nil for a context that has no metadata, and panics for a
-- context that has incoming or outgoing metadata.
pub copy_context-nothing :
    {M C : Type 0} (lib : Metadata M C) (c : C)
    → copy_context lib c ≡ elim (lib.incoming c) [
      | none ↦ elim (lib.outgoing c) [ none ↦ returns none | some m ↦ panics ]
      | some m ↦ panics
    ]
unfolding copy_context
copy_context-nothing {M} {C} lib c = go (lib.incoming c) (lib.outgoing c)
  where
    go :
        (i o : Option M)
        → (derive lib lib.new_incoming none i >>= (λ d. derive lib lib.new_outgoing d o))
          ≡ elim i [ none ↦ elim o [ none ↦ returns none | some m ↦ panics ] | some m ↦ panics ]
    go none none = refl
    go none (some m) = refl
    go (some m) o = refl
