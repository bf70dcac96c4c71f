-- ===== src/Tests/Helpers.antt =====
-- The helpers of common/utils/utils.go at short texts, maps and contexts.
use panda_go.Prelude.{
  ◌≡◌, refl, arith, true, false, Option, none, some, List, [], ◌∷◌, ◌++◌, if◌then◌else◌, nat_eq,
  list_eq, list_beq,
}
use panda_go.Go.Text.{GoString, lit, split, equal_fold, to_lower}
use panda_go.Go.Map.{GoMap, has_key}
use panda_go.Go.Error.{ok}
use panda_go.Go.Outcome.{returns}
use panda_go.Utils.Members.{
  Marshaller, Members, member, no_member, leaf, sequence, thing, no_thing, structure, reference,
  Entry, marsh_with_out_omitempty, parse_json_tag,
}
use panda_go.Utils.Members.Names.{named_in, marsh_with_out_omitempty-names}
use panda_go.Utils.Trace.{Headers}
use panda_go.Utils.Contexts.{Metadata, MetadataLaws}
use panda_go.Utils.Contexts.Written.{header_in, header_out}
use panda_go.Utils.Contexts.{user_header_to_set_context_with_b3}
use panda_go.Utils.Contexts.Taken.{user_header_to_set_context_with_b3-headers}

abbrev headers : Headers
headers =
    (lit "X-B3-TraceId", lit "a" ∷ [])
    ∷ (lit "x-b3-traceid", lit "a" ∷ [])
    ∷ (lit "host", lit "h" ∷ [])
    ∷ []

-- Metadata as functions, and contexts as pairs of them.
abbrev Md : Type 0
Md = GoString → List GoString

abbrev lib : Metadata Md (Option Md × Option Md)
lib = record {
  empty_md = λ k. [];
  get = λ k m. m k;
  set = λ k v m j. if equal_fold k j then v ∷ [] else m j;
  append = λ k vs m j. if equal_fold k j then m j ++ vs else m j;
  join_pair = λ m k v j. if equal_fold k j then m j ++ v ∷ [] else m j;
  entries = λ m. [];
  incoming = λ c. c.0;
  new_incoming = λ c m. (some m, c.1);
  outgoing = λ c. c.1;
  new_outgoing = λ c m. (c.0, some m);
  append_outgoing = λ c k v. c;
}

lib_laws : MetadataLaws lib
lib_laws = record {
  get-empty = λ k. refl;
  get-set = λ k j v m. refl;
  get-append = λ k j vs m. refl;
  incoming-new_incoming = λ c m. refl;
  incoming-new_outgoing = λ c m. refl;
  outgoing-new_outgoing = λ c m. refl;
  outgoing-new_incoming = λ c m. refl;
}

abbrev no_metadata : Option Md × Option Md
no_metadata = (none, none)

user_header_to_set_context_with_b3-headers_example :
    (header_in lib (lit "x-b3-traceid") (user_header_to_set_context_with_b3 lib no_metadata headers)
      ≡ lit "a" ∷ [])
    × (header_out lib
          (lit "x-b3-traceid")
          (user_header_to_set_context_with_b3 lib no_metadata headers)
        ≡ lit "a" ∷ [])
unfolding equal_fold to_lower list_beq lit
user_header_to_set_context_with_b3-headers_example =
    user_header_to_set_context_with_b3-headers lib lib_laws no_metadata headers (lit "x-b3-traceid")

abbrev json : Marshaller
json = record { marshal_thing = λ v. ok []; marshal_map = λ m. ok [] }

-- Id `json:"id,omitempty"`, secret `json:"-"`, and Tags without a tag, which holds one struct
abbrev row : Members
row = member (lit "Id") (lit "id,omitempty") true (leaf 0) (
    member (lit "secret") (lit "-") false (leaf 1)
      (member (lit "Tags") [] true (sequence (thing (structure no_member) no_thing)) no_member))

marsh_with_out_omitempty-names_example :
    (m : GoMap GoString Entry) × (marsh_with_out_omitempty json (structure row) ≡ returns (ok []))
    × (marsh_with_out_omitempty json (reference (structure row)) ≡ returns (ok []))
    × ((k : GoString) → has_key k m ≡ named_in k (lit "id" ∷ lit "Tags" ∷ []))
unfolding list_beq parse_json_tag split lit
marsh_with_out_omitempty-names_example =
    marsh_with_out_omitempty-names json row
      ((λ e. refl), ((λ e. ground arith), ((λ e. ((refl, tt), tt)), tt)))
