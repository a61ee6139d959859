-- ===== src/AccessPoint/Examples.antt =====
-- The theorems on access points at concrete inputs.
use pop_cpp.Base.{
  ℕ, ◌≡◌, refl, sym, ◌∙◌, true, false, List, [], ◌∷◌, ◌++◌, replicate, ok, ok_injective, arith,
  ◌||◌,
}
use mathlib.Core.Path.{subst}
use pop_cpp.Base.Bytes.{le_array, le_bytes}
use pop_cpp.Buffer.Types.{Buffer}
use pop_cpp.Buffer.Store.{resize, write, round4, IsSmall}
use pop_cpp.Buffer.Raw
use pop_cpp.Buffer.Raw.{raw_class}
use pop_cpp.Buffer.Raw.Laws.{raw_laws}
use pop_cpp.Buffer.Text.{pack_int, pack_string, pack_strings, unpack_strings}
use pop_cpp.Buffer.Text.Laws.{unpack_strings-pack_strings}
use pop_cpp.Buffer.Samples.{fresh}
use pop_cpp.AccessPoint.{
  AccessPoint, new_accesspoint, pack_accesspoint, unpack_accesspoint, is_secure, copy, assign,
  same_endpoint,
}
use pop_cpp.AccessPoint.Laws.{Merges, assign_merges, copy_lem, unpack_accesspoint-pack_accesspoint}

abbrev server : AccessPoint
server = record { endpoint = 104 ∷ 58 ∷ 49 ∷ []; security = 1; service = true; noaddref = false }

abbrev other : AccessPoint
other = record { endpoint = 120 ∷ []; security = 0; service = false; noaddref = true }

abbrev packed : Buffer
packed = record fresh {
  unpackpos = 20;
  packeddata =
      replicate 20 0
      ++ 4 ∷ 0 ∷ 0 ∷ 0 ∷ 104 ∷ 58 ∷ 49 ∷ 0 ∷ 1 ∷ 0 ∷ 0 ∷ 0 ∷ 1 ∷ 0 ∷ 0 ∷ 0 ∷ 0 ∷ 0 ∷ 0 ∷ 0 ∷ [];
}

pack_server : pack_accesspoint raw_class server (raw_class.reset fresh) ≡ ok packed
unfolding pack_accesspoint pack_strings pack_string pack_int raw_class Raw.reset Raw.pack
    Raw.pack_chars resize write round4 le_array le_bytes
pack_server = refl

IsSmall-packed :
    (b : Buffer) → pack_accesspoint raw_class server (raw_class.reset fresh) ≡ ok b → IsSmall b
IsSmall-packed b e = subst IsSmall (ok_injective (sym pack_server ∙ e)) (omega arith)

unpack_accesspoint-pack_accesspoint_example :
    (packed b' b'' : Buffer) × (new : AccessPoint) × (pack_accesspoint raw_class server
        (raw_class.reset fresh)
      ≡ ok packed)
    × (unpack_accesspoint raw_class other packed ≡ ok (new, b'))
    × Merges other server new
    × (unpack_accesspoint raw_class new_accesspoint packed ≡ ok (server, b''))
unpack_accesspoint-pack_accesspoint_example =
    unpack_accesspoint-pack_accesspoint raw_class raw_laws other server fresh (omega arith)
      IsSmall-packed

assign_merges_example :
    ((assign other server).endpoint ≡ 104 ∷ 58 ∷ 49 ∷ [])
    × (is_secure (assign other server) ≡ (is_secure server || is_secure other))
    × ((assign other server).service ≡ true)
    × ((assign other server).noaddref ≡ true)
    × (same_endpoint (assign other server) server ≡ true)
assign_merges_example = assign_merges other server

copy_lem_example :
    ((copy other server).endpoint ≡ 104 ∷ 58 ∷ 49 ∷ [])
    × (is_secure (copy other server) ≡ is_secure server)
    × ((copy other server).service ≡ true)
    × ((copy other server).noaddref ≡ true)
copy_lem_example = copy_lem other server

abbrev words_packed : Buffer
words_packed = record fresh {
  unpackpos = 20;
  packeddata =
      replicate 20 0 ++ 3 ∷ 0 ∷ 0 ∷ 0 ∷ 104 ∷ 105 ∷ 0 ∷ 0 ∷ 1 ∷ 0 ∷ 0 ∷ 0 ∷ 0 ∷ 0 ∷ 0 ∷ 0 ∷ [];
}

abbrev texts : List (List ℕ)
texts = (104 ∷ 105 ∷ []) ∷ [] ∷ []

pack_words : pack_strings raw_class texts (raw_class.reset fresh) ≡ ok words_packed
unfolding pack_strings pack_string pack_int raw_class Raw.reset Raw.pack Raw.pack_chars resize write
    round4 le_array le_bytes
pack_words = refl

unpack_strings-pack_strings_example :
    (packed b' : Buffer) × (pack_strings raw_class texts (raw_class.reset fresh) ≡ ok packed)
    × (unpack_strings raw_class 2 packed ≡ ok (texts, b'))
unpack_strings-pack_strings_example =
    unpack_strings-pack_strings raw_class raw_laws texts fresh (omega arith)
      (λ b e. subst IsSmall (ok_injective (sym pack_words ∙ e)) (omega arith))
