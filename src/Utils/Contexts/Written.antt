-- ===== src/Utils/Contexts/Written.antt =====
-- Which headers a context carries after the functions that write B3 headers.
use panda_go.Prelude.{
  ◌≡◌, refl, ◌∙◌, ap, Bool-cases, inl, inr, List, [], ◌∷◌, if◌then◌else◌, nat_eq, list_eq,
}
use panda_go.Go.Text.{GoString, lit, is_empty, equal_fold}
use panda_go.Utils.Contexts.{
  Metadata, MetadataLaws, SpanContext, md_or_empty, in_and_out_context_set_kv, set_context_with_b3,
}

module _ {M C : Type 0} (lib : Metadata M C) where
  -- The values of a header in the incoming metadata of a context, and in the outgoing.
  abbrev pub header_in : GoString → C → List GoString
  header_in k c = lib.get k (md_or_empty lib (lib.incoming c))

  abbrev pub header_out : GoString → C → List GoString
  header_out k c = lib.get k (md_or_empty lib (lib.outgoing c))

-- The values of header `k` in a context where they were `old`, with the B3 headers of the span.
abbrev pub with_b3 : SpanContext → GoString → List GoString → List GoString
with_b3 s k old =
    if equal_fold (lit "x-b3-parentspanid") k
    then s.parent_id ∷ []
    else if equal_fold (lit "x-b3-sampled") k
    then s.flags ∷ []
    else if equal_fold (lit "x-b3-spanid") k
    then s.span_id ∷ []
    else if equal_fold (lit "x-b3-traceid") k
    then s.trace_id ∷ []
    else old

module _ {M C : Type 0} (lib : Metadata M C) (laws : MetadataLaws lib) where
  -- InAndOutContextSetKV sets the header in both directions and no other header.
  pub set_kv-in :
      (c : C) (k v j : GoString)
      → header_in lib j (in_and_out_context_set_kv lib c k v)
        ≡ (if equal_fold k j then v ∷ [] else header_in lib j c)
  unfolding in_and_out_context_set_kv
  set_kv-in c k v j =
      ap (λ o. lib.get j (md_or_empty lib o))
        (laws.incoming-new_outgoing _ _ ∙ laws.incoming-new_incoming c _)
      ∙ laws.get-set k j v _

  pub set_kv-out :
      (c : C) (k v j : GoString)
      → header_out lib j (in_and_out_context_set_kv lib c k v)
        ≡ (if equal_fold k j then v ∷ [] else header_out lib j c)
  unfolding in_and_out_context_set_kv
  set_kv-out c k v j =
      ap (λ o. lib.get j (md_or_empty lib o)) (laws.outgoing-new_outgoing _ _)
      ∙ laws.get-set k j v _

  -- For a span with a trace id, SetContextWithB3 gives the context the span's four B3 headers, among
  -- the incoming and among the outgoing ones, and leaves every other header as it was; for a span
  -- without one it changes nothing.
  pub set_context_with_b3-headers :
      (c : C) (s : SpanContext) (k : GoString)
      → (header_in lib k (set_context_with_b3 lib c s)
          ≡ (if is_empty s.trace_id then header_in lib k c else with_b3 s k (header_in lib k c)))
        × (header_out lib k (set_context_with_b3 lib c s) ≡ (
            if is_empty s.trace_id then header_out lib k c else with_b3 s k (header_out lib k c)))
  unfolding set_context_with_b3
  set_context_with_b3-headers c s k = elim (Bool-cases (is_empty s.trace_id)) [
    | inl p ↦ rw p (refl, refl)
    | inr p ↦ rw p (
      rw (set_kv-in _ _ _ k, set_kv-in _ _ _ k, set_kv-in _ _ _ k, set_kv-in _ _ _ k) refl,
      rw (set_kv-out _ _ _ k, set_kv-out _ _ _ k, set_kv-out _ _ _ k, set_kv-out _ _ _ k) refl,
    )
  ]
