-- ===== src/Go/Error.antt =====
-- Go's `error`: `none` is nil, `some e` an error whose text is `e`. A `Result` is a pair of a value
-- and an error of which the code fills one.
use panda_go.Prelude.{Option}
use panda_go.Go.Text.{GoString}

abbrev pub Error : Type 0
Error = GoString

pub data Result {ℓ} (A : Type ℓ) : Type ℓ where
  ok : A → Result A
  err : Error → Result A

abbrev pub MaybeError : Type 0
MaybeError = Option Error
