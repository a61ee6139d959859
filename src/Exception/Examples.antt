-- ===== src/Exception/Examples.antt =====
-- The theorems on exceptions at concrete inputs.
use pop_cpp.Base.{ℕ, ◌≡◌, refl, List, [], ◌∷◌, ◌++◌, some, ok, err, undefined, replicate, arith}
use pop_cpp.Base.Bytes.{le_array, le_bytes, is_positive, wrap32}
use pop_cpp.Buffer.Types.{Buffer}
use pop_cpp.Buffer.Store.{resize, write, round4}
use pop_cpp.Buffer.Header.{header_words, assign, exception_header}
use pop_cpp.Buffer.Raw
use pop_cpp.Buffer.Raw.{raw_class}
use pop_cpp.Buffer.Raw.Laws.{raw_laws}
use pop_cpp.Buffer.Text.{pack_int, pack_string}
use pop_cpp.Buffer.Wire.{raw_encoding, put_header, get_load, recv}
use pop_cpp.Buffer.Wire.Framing.{raw_encoding_laws}
use pop_cpp.Buffer.Connection.{done}
use pop_cpp.Buffer.Samples.{slow, slow_laws, fresh}
use pop_cpp.Exception.{
  exception, ObjectCodec, pack_exception, pack_thrown, exception_message, check_and_throw,
}
use pop_cpp.Exception.Codes.{PopException, of_code, of_code_total}
use pop_cpp.Exception.Remote.{thrown_again}

abbrev refused : PopException
refused = record { errcode = 10003; info = 110 ∷ 111 ∷ [] }

abbrev pub no_objects : ObjectCodec ℕ
no_objects = record { pack_object = λ o b. ok b; unpack_object = λ b. err undefined }

abbrev body : List ℕ
body = 19 ∷ 39 ∷ 0 ∷ 0 ∷ 3 ∷ 0 ∷ 0 ∷ 0 ∷ 110 ∷ 111 ∷ 0 ∷ 0 ∷ []

abbrev packed : Buffer
packed = record {
  header = record {
    type = 2;
    class_id = 1500;
    method_id = 11;
    semantics = 1;
    method_name = fresh.header.method_name;
    exception = 14;
  };
  unpackpos = 20;
  packeddata = replicate 20 0 ++ body;
}

abbrev header : List ℕ
header = 32 ∷ 0 ∷ 0 ∷ 0 ∷ 2 ∷ 0 ∷ 0 ∷ 0 ∷ 14 ∷ 0 ∷ 0 ∷ 0 ∷ 0 ∷ 0 ∷ 0 ∷ 0 ∷ 0 ∷ 0 ∷ 0 ∷ 0 ∷ []

abbrev sent : Buffer
sent = record packed { packeddata = header ++ body }

pack_refused :
    exception_message raw_class no_objects fresh.header fresh (exception refused) ≡ ok packed
unfolding exception_message pack_thrown pack_exception pack_string pack_int assign exception_header
    wrap32 is_positive raw_class Raw.reset Raw.pack Raw.pack_chars resize write round4 le_array
    le_bytes
pack_refused = refl

load_refused : get_load raw_encoding packed ≡ some sent
unfolding get_load put_header raw_encoding header_words write le_array le_bytes
load_refused = refl

thrown_again_example :
    (b' : Buffer) × (st' : List ℕ) × (recv raw_encoding slow fresh sent.packeddata ≡ done (b', st'))
    × (check_and_throw raw_class no_objects b' ≡ ok (some (exception refused)))
    × (st' ≡ [])
thrown_again_example =
    thrown_again raw_class raw_laws raw_encoding raw_encoding_laws slow slow_laws no_objects
      fresh.header fresh fresh packed sent (exception refused) sent.packeddata [] (omega arith)
      (omega arith) pack_refused (omega arith) load_refused refl

of_code_total_example :
    (e : PopException) × (of_code (λ n. []) 10003 ≡ some e) × (e.errcode ≡ 10003)
of_code_total_example = of_code_total (λ n. []) 10003
