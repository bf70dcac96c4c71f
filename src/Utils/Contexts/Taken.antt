-- ===== src/Utils/Contexts/Taken.antt =====
-- Which headers UserHeaderToSetContextWithB3 takes over from an HTTP request.
use panda_go.Prelude.{
  ◌≡◌, refl, sym, ap, ◌∙◌, List, [], ◌∷◌, ◌++◌, append-nil, append_assoc, if◌then◌else◌, Bool-cases,
  inl, inr,
}
use panda_go.Go.Text.{GoString, lit, equal_fold}
use panda_go.Utils.Trace.{Headers}
use panda_go.Utils.Contexts.{
  Metadata, MetadataLaws, md_of_header, set_first, set_keys, user_header_to_set_context_with_b3,
}
use panda_go.Utils.Contexts.Written.{header_in, header_out, set_kv-in, set_kv-out}

-- All values that a request has under a name, in any case of letters.
abbrev pub values_of : GoString → Headers → List GoString
values_of k [] = []
values_of k ((key, vals) ∷ rest) =
    if equal_fold key k then vals ++ values_of k rest else values_of k rest

abbrev pub first_of : List GoString → List GoString → List GoString
first_of [] old = old
first_of (v ∷ vs) old = v ∷ []

-- The values of header `k` once the first value of `key`, if there is one, is taken over.
abbrev pub taken : GoString → GoString → List GoString → List GoString → List GoString
taken key k vals old = if equal_fold key k then first_of vals old else old

-- The values of header `k` in a context where they were `old`, after all four names.
abbrev pub all_taken : Headers → GoString → List GoString → List GoString
all_taken header k old =
    taken (lit "x-b3-parentspanid") k (values_of (lit "x-b3-parentspanid") header) (
      taken (lit "x-b3-sampled") k (values_of (lit "x-b3-sampled") header) (
        taken (lit "x-b3-spanid") k (values_of (lit "x-b3-spanid") header)
          (taken (lit "x-b3-traceid") k (values_of (lit "x-b3-traceid") header) old)))

taken_nothing : (key k : GoString) (old : List GoString) → taken key k [] old ≡ old
taken_nothing key k old = elim (Bool-cases (equal_fold key k)) [
  | inl p ↦ rw p refl
  | inr p ↦ rw p refl
]

module _ {M C : Type 0} (lib : Metadata M C) (laws : MetadataLaws lib) where
  get-md_of_header :
      (k : GoString) (header : Headers) (m : M)
      → lib.get k (md_of_header lib header m) ≡ lib.get k m ++ values_of k header
  unfolding md_of_header
  get-md_of_header k [] m = sym (append-nil (lib.get k m))
  get-md_of_header k ((key, vals) ∷ rest) m =
      get-md_of_header k rest (lib.append key vals m)
      ∙ ap (λ l. l ++ values_of k rest) (laws.get-append key k vals m)
      ∙ (elim (Bool-cases (equal_fold key k)) [
        | inl p ↦ rw p (append_assoc (lib.get k m) vals (values_of k rest))
        | inr p ↦ rw p refl
      ])

  header_values :
      (k : GoString) (header : Headers)
      → lib.get k (md_of_header lib header lib.empty_md) ≡ values_of k header
  header_values k header =
      get-md_of_header k header lib.empty_md ∙ ap (λ l. l ++ values_of k header) (laws.get-empty k)

  set_first-in :
      (key : GoString) (vals : List GoString) (c : C) (k : GoString)
      → header_in lib k (set_first lib key vals c) ≡ taken key k vals (header_in lib k c)
  set_first-in key [] c k = sym (taken_nothing key k (header_in lib k c))
  set_first-in key (v ∷ vs) c k = set_kv-in lib laws c key v k

  set_first-out :
      (key : GoString) (vals : List GoString) (c : C) (k : GoString)
      → header_out lib k (set_first lib key vals c) ≡ taken key k vals (header_out lib k c)
  set_first-out key [] c k = sym (taken_nothing key k (header_out lib k c))
  set_first-out key (v ∷ vs) c k = set_kv-out lib laws c key v k

  -- UserHeaderToSetContextWithB3 gives the context, among the incoming and among the outgoing headers,
  -- the first value that the request has under each of the four B3 names, in any case of letters, and
  -- leaves every other header, and those of the four that the request does not have, as they were.
  pub user_header_to_set_context_with_b3-headers :
      (c : C) (header : Headers) (k : GoString)
      → (header_in lib k (user_header_to_set_context_with_b3 lib c header)
          ≡ all_taken header k (header_in lib k c))
        × (header_out lib k (user_header_to_set_context_with_b3 lib c header)
            ≡ all_taken header k (header_out lib k c))
  unfolding user_header_to_set_context_with_b3 set_keys
  user_header_to_set_context_with_b3-headers c header k = (
    rw
        (
          set_first-in _ _ _ k,
          set_first-in _ _ _ k,
          set_first-in _ _ _ k,
          set_first-in _ _ _ k,
          header_values (lit "x-b3-parentspanid") header,
          header_values (lit "x-b3-sampled") header,
          header_values (lit "x-b3-spanid") header,
          header_values (lit "x-b3-traceid") header,
        )
        refl,
    rw
        (
          set_first-out _ _ _ k,
          set_first-out _ _ _ k,
          set_first-out _ _ _ k,
          set_first-out _ _ _ k,
          header_values (lit "x-b3-parentspanid") header,
          header_values (lit "x-b3-sampled") header,
          header_values (lit "x-b3-spanid") header,
          header_values (lit "x-b3-traceid") header,
        )
        refl,
  )
