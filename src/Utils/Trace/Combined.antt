-- ===== src/Utils/Trace/Combined.antt =====
-- The combined identifier: four fields between colons, which a split at the colons gives back.
use panda_go.Prelude.{◌≡◌, ◌≢◌, refl, [], ◌∷◌, arith}
use panda_go.Go.Text.{GoString, lit, split}
use panda_go.Go.Text.Split.{Lacks, split_whole, split-append}
use panda_go.Utils.Trace.{b3_trace_id_to_uber_trace_id, or_default}

zeros-Lacks : Lacks b':' (lit "0000000000000000")
unfolding lit
zeros-Lacks = omega arith

zero-Lacks : Lacks b':' (lit "0")
unfolding lit
zero-Lacks = omega arith

or_default-Lacks : (s d : GoString) → Lacks b':' s → Lacks b':' d → Lacks b':' (or_default s d)
or_default-Lacks [] d hs hd = hd
or_default-Lacks (c ∷ s) d hs hd = hs

-- Of four fields without colons, the first not empty, the combined identifier is split into the same
-- four, with zeros for the empty ones.
pub combined_round_trip :
    (trace span parent flag : GoString)
    → trace ≢ []
    → Lacks b':' trace
    → Lacks b':' span
    → Lacks b':' parent
    → Lacks b':' flag
    → split (b3_trace_id_to_uber_trace_id trace span parent flag) b':'
      ≡ trace
        ∷ or_default span (lit "0000000000000000")
        ∷ or_default parent (lit "0000000000000000")
        ∷ or_default flag (lit "0")
        ∷ []
unfolding b3_trace_id_to_uber_trace_id
combined_round_trip [] span parent flag ne ht hs hp hf = absurd (ne refl)
combined_round_trip (c ∷ t) span parent flag ne ht hs hp hf = rw (
  split-append b':' (c ∷ t) _ ht,
  split-append b':' (or_default span (lit "0000000000000000")) _
      (or_default-Lacks span _ hs zeros-Lacks),
  split-append b':' (or_default parent (lit "0000000000000000")) _
      (or_default-Lacks parent _ hp zeros-Lacks),
  split_whole b':' (or_default flag (lit "0")) (or_default-Lacks flag _ hf zero-Lacks),
)
