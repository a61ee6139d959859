-- ===== src/Buffer/Examples.antt =====
-- The theorems on message buffers at concrete inputs, and runs of the model.
use pop_cpp.Base.{ℕ, ◌≡◌, refl, List, [], ◌∷◌, ◌++◌, some, ok, replicate, arith, All}
use pop_cpp.Base.Bytes.{le_array, le_bytes, be_bytes}
use pop_cpp.Buffer.Types.{Buffer}
use pop_cpp.Buffer.Store.{resize, write, round4}
use pop_cpp.Buffer.Header.{header_words}
use pop_cpp.Buffer.Raw
use pop_cpp.Buffer.Raw.{raw_class}
use pop_cpp.Buffer.Raw.Laws.{raw_laws}
use pop_cpp.Buffer.Xdr
use pop_cpp.Buffer.Xdr.{xdr_class}
use pop_cpp.Buffer.Xdr.Laws.{IsXdr, xdr_laws}
use pop_cpp.Buffer.SampleXdr.{be_library, be_library_laws, be_encode, be_array}
use pop_cpp.Buffer.Stream.{pack_all}
use pop_cpp.Buffer.Wire.{raw_encoding, xdr_encoding, htonl_words, put_header, get_load}
use pop_cpp.Buffer.Wire.Framing.{raw_encoding_laws, xdr_encoding_laws}
use pop_cpp.Buffer.Call.{Arrives, raw_call, xdr_call}
use pop_cpp.Buffer.Samples.{slow, slow_laws, fresh, arguments}

abbrev body : List ℕ
body = 44 ∷ 1 ∷ 0 ∷ 0 ∷ 7 ∷ 0 ∷ 0 ∷ 0 ∷ 1 ∷ 0 ∷ 0 ∷ 0 ∷ 104 ∷ 105 ∷ 0 ∷ 0 ∷ []

abbrev packed : Buffer
packed = record fresh { unpackpos = 20; packeddata = replicate 20 0 ++ body }

abbrev header : List ℕ
header = 36 ∷ 0 ∷ 0 ∷ 0 ∷ 0 ∷ 0 ∷ 0 ∷ 0 ∷ 220 ∷ 5 ∷ 0 ∷ 0 ∷ 11 ∷ 0 ∷ 0 ∷ 0 ∷ 1 ∷ 0 ∷ 0 ∷ 0 ∷ []

abbrev sent : Buffer
sent = record packed { packeddata = header ++ body }

pack_arguments : pack_all raw_class arguments (raw_class.reset fresh) ≡ ok packed
unfolding pack_all raw_class Raw.reset Raw.pack Raw.pack_chars resize write round4 le_array le_bytes
pack_arguments = refl

load_arguments : get_load raw_encoding packed ≡ some sent
unfolding get_load put_header raw_encoding header_words write le_array le_bytes
load_arguments = refl

raw_call_example :
    Arrives raw_class raw_laws raw_encoding raw_encoding_laws slow slow_laws arguments fresh fresh
      (sent.packeddata ++ 9 ∷ [])
      (9 ∷ [])
raw_call_example =
    raw_call slow slow_laws arguments fresh fresh packed sent (sent.packeddata ++ 9 ∷ []) (9 ∷ [])
      (omega arith) (omega arith) (omega arith) pack_arguments (omega arith) load_arguments refl

abbrev xdr_body : List ℕ
xdr_body = 0 ∷ 0 ∷ 1 ∷ 44 ∷ 0 ∷ 0 ∷ 0 ∷ 7 ∷ 1 ∷ 0 ∷ 0 ∷ 0 ∷ 104 ∷ 105 ∷ 0 ∷ 0 ∷ []

abbrev xdr_header : List ℕ
xdr_header = 0 ∷ 0 ∷ 0 ∷ 36 ∷ 0 ∷ 0 ∷ 0 ∷ 0 ∷ 0 ∷ 0 ∷ 5 ∷ 220 ∷ 0 ∷ 0 ∷ 0 ∷ 11 ∷ 0 ∷ 0 ∷ 0 ∷ 1 ∷ []

abbrev xdr_packed : Buffer
xdr_packed = record fresh { unpackpos = 20; packeddata = replicate 20 0 ++ xdr_body }

abbrev xdr_sent : Buffer
xdr_sent = record packed { packeddata = xdr_header ++ xdr_body }

xdr_pack_arguments :
    pack_all (xdr_class be_library) arguments ((xdr_class be_library).reset fresh) ≡ ok xdr_packed
unfolding pack_all xdr_class Xdr.reset Xdr.pack Xdr.pack_vector Raw.pack_chars resize write round4
    be_encode be_array be_bytes
xdr_pack_arguments = refl

xdr_load_arguments : get_load xdr_encoding xdr_packed ≡ some xdr_sent
unfolding get_load put_header xdr_encoding header_words write htonl_words be_bytes
xdr_load_arguments = refl

arguments_fit : All (IsXdr be_library) arguments
unfolding IsXdr be_encode be_array be_bytes round4
arguments_fit = (
  (0 ∷ 0 ∷ 1 ∷ 44 ∷ 0 ∷ 0 ∷ 0 ∷ 7 ∷ [], (_, refl, refl, omega arith, omega arith)),
  ((1 ∷ 0 ∷ 0 ∷ 0 ∷ [], (omega arith, refl)), ((104 ∷ 105 ∷ 0 ∷ 0 ∷ [], (omega arith, refl)), tt)),
)

xdr_call_example :
    Arrives
      (xdr_class be_library)
      (xdr_laws be_library be_library_laws)
      xdr_encoding
      xdr_encoding_laws
      slow
      slow_laws
      arguments
      fresh
      fresh
      xdr_sent.packeddata
      []
xdr_call_example =
    xdr_call slow slow_laws be_library be_library_laws arguments fresh fresh xdr_packed xdr_sent
      xdr_sent.packeddata [] arguments_fit (omega arith) (omega arith) xdr_pack_arguments
      (omega arith) xdr_load_arguments (refl)
