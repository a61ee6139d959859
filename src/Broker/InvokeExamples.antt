-- ===== src/Broker/InvokeExamples.antt =====
-- The theorems on DoInvoke at concrete inputs.
use pop_cpp.Base.{
  ℕ, ◌≡◌, refl, sym, ◌∙◌, Bool, Result, true, false, List, [], ◌∷◌, ◌++◌, some, ok, replicate,
  arith,
}
use mathlib.Core.Path.{subst}
use pop_cpp.Base.Bytes.{le_array, le_bytes}
use pop_cpp.Buffer.Types.{Buffer, Scalar}
use pop_cpp.Buffer.Store.{resize, write, round4, IsSmall}
use pop_cpp.Buffer.Header.{header_words, assign, exception_header}
use pop_cpp.Buffer.Raw
use pop_cpp.Buffer.Raw.{raw_class}
use pop_cpp.Buffer.Raw.Laws.{raw_laws}
use pop_cpp.Buffer.Wire.{raw_encoding, put_header, get_load, recv}
use pop_cpp.Buffer.Wire.Framing.{raw_encoding_laws}
use pop_cpp.Buffer.Connection.{done}
use pop_cpp.Buffer.Samples.{slow, slow_laws, fresh}
use pop_cpp.Exception.{Thrown, number, pack_thrown, exception_message, check_and_throw}
use pop_cpp.Exception.Examples.{no_objects}
use pop_cpp.Broker.{Request}
use pop_cpp.Broker.Invoke.{value, raised, Place, Effect, answers, answer_of, raised_by, do_invoke}
use pop_cpp.Broker.Invoke.Rethrown.{a_number, do_invoke_rethrown}

abbrev place : Place
place = record { classname = 67 ∷ []; endpoint = 104 ∷ [] }

abbrev req : Request
req = record { from = some 1; class_id = 1500; method_id = 11; semantics = 1; buf = fresh }

abbrev five : Thrown ℕ
five = number Scalar.int 5

abbrev packed : Buffer
packed = record {
  header = record fresh.header { type = 2; exception = 1 };
  unpackpos = 20;
  packeddata = replicate 20 0 ++ 5 ∷ 0 ∷ 0 ∷ 0 ∷ [];
}

abbrev header : List ℕ
header = 24 ∷ 0 ∷ 0 ∷ 0 ∷ 2 ∷ 0 ∷ 0 ∷ 0 ∷ 1 ∷ replicate 11 0

abbrev sent : Buffer
sent = record packed { packeddata = header ++ 5 ∷ 0 ∷ 0 ∷ 0 ∷ [] }

abbrev invoke_five : Result (Effect × Bool)
invoke_five =
    do_invoke raw_class no_objects (λ n. []) [] place true fresh.header req (raised (value five))
      (some (record { refcount = 1; can_kill = false }))

answered : invoke_five ≡ ok (answers packed, true)
unfolding do_invoke raised_by answer_of exception_message pack_thrown assign exception_header
    raw_class Raw.reset Raw.pack Raw.pack_chars resize write round4 le_array le_bytes
answered = refl

load_five : get_load raw_encoding packed ≡ some sent
unfolding get_load put_header raw_encoding header_words write le_array le_bytes
load_five = refl

answers_injective :
    {b b' : Buffer}
    → ◌≡◌ {A = Result (Effect × Bool)} (ok (answers b, true)) (ok (answers b', true))
    → b ≡ b'
answers_injective h = cc

IsSmall-five :
    (b : Buffer)
    → invoke_five ≡ ok (answers b, true)
    → IsSmall b × (get_load raw_encoding b ≡ some sent)
IsSmall-five b e =
    subst (λ b. IsSmall b × (get_load raw_encoding b ≡ some sent))
      (answers_injective (sym answered ∙ e)) (omega arith, load_five)

do_invoke_rethrown_example :
    (packed : Buffer) × (invoke_five ≡ ok (answers packed, true))
    × (b' : Buffer) × (st' : List ℕ) × (recv raw_encoding slow fresh sent.packeddata
        ≡ done (b', st'))
    × (check_and_throw raw_class no_objects b' ≡ ok (some five))
    × (st' ≡ [])
do_invoke_rethrown_example =
    do_invoke_rethrown raw_class raw_laws raw_encoding raw_encoding_laws slow slow_laws no_objects
      (λ n. []) [] place true fresh.header req 1 (raised (value five))
      (some (record { refcount = 1; can_kill = false })) five fresh sent sent.packeddata [] refl
      (a_number Scalar.int 5)
      (raw_laws.Fits-scalars Scalar.int (5 ∷ []) tt (omega arith, tt) (omega arith)) (omega arith)
      IsSmall-five refl
