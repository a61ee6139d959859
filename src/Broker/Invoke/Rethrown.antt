-- ===== src/Broker/Invoke/Rethrown.antt =====
-- What a caller gets for a method that throws.
use pop_cpp.Base.{
  ℕ, suc, ◌==◌, length, arith, ◌≡◌, refl, Bool, false, List, [], ◌∷◌, ◌++◌, Option, some, ok,
}
use pop_cpp.Buffer.Types.{Buffer, MessageHeader, Scalar}
use pop_cpp.Buffer.Store.{IsSmall}
use pop_cpp.Buffer.Header.{IsHeader}
use pop_cpp.Buffer.Queue.{BufferClass, BufferLaws}
use pop_cpp.Buffer.Connection.{ComboxReader, ComboxLaws, done}
use pop_cpp.Buffer.Wire.{Encoding, get_load, recv}
use pop_cpp.Buffer.Wire.Framing.{EncodingLaws}
use pop_cpp.Exception.{
  Thrown, number, bool, char, uchar, string, object, exception, ObjectCodec, exception_message,
  check_and_throw,
}
use pop_cpp.Exception.Codes.{codes, of_code, of_reasons, add_info}
use pop_cpp.Exception.Laws.{IsCarried, exception_message-Adds}
use pop_cpp.Exception.Remote.{thrown_again}
use pop_cpp.Broker.{Request}
use pop_cpp.Broker.PopCall.{Object}
use pop_cpp.Broker.Invoke.{
  Raised, value, std_pointer, std_value, unknown, Invoked, returned, raised, Place, answer_of,
  raised_by, answers, has_references, do_invoke,
}

is_not_empty : (n : ℕ) → (suc n == 0) ≡ false
is_not_empty n = ground arith

-- The class and the access point of the object.
abbrev pub where_text : Place → List ℕ
where_text p = (p.classname ++ (64 ∷ [])) ++ p.endpoint

-- What the caller is to be told for what Invoke does. An exception with a text has it twice, once
-- behind the place.
module _ {Obj : Type 0} (base_what : List ℕ) (p : Place) where
  pub data Tells : Invoked Obj → Thrown Obj → Type 0 where
    a_number : (s : Scalar) (x : ℕ) → Tells (raised (value (number s x))) (number s x)
    a_bool : (b : Bool) → Tells (raised (value (bool b))) (bool b)
    a_char : (x : ℕ) → Tells (raised (value (char x))) (char x)
    a_uchar : (x : ℕ) → Tells (raised (value (uchar x))) (uchar x)
    a_string : (s : Option (List ℕ)) → Tells (raised (value (string s))) (string s)
    an_object : (o : Obj) → Tells (raised (value (object o))) (object o)
    without_text :
        (n : ℕ)
        → Tells
            (raised (value (exception (record { errcode = n; info = [] }))))
            (exception (record { errcode = n; info = where_text p }))
    with_text :
        (n x : ℕ) (xs : List ℕ)
        → Tells (raised (value (exception (record { errcode = n; info = x ∷ xs })))) (
            exception (record {
              errcode = n;
              info = ((x ∷ xs) ++ codes ": ") ++ ((where_text p ++ codes ": ") ++ (x ∷ xs));
            }))
    standard_pointer :
        (what : List ℕ)
        → Tells (raised (std_pointer what)) (
            exception (record {
              errcode = 10014;
              info = codes "Standard exception: " ++ ((where_text p ++ codes ": ") ++ what);
            }))
    standard : Tells (raised std_value) (
        exception (record {
          errcode = 10014;
          info = codes "Standard exception: " ++ ((where_text p ++ codes ": ") ++ base_what);
        }))
    anything : Tells (raised unknown) (exception (record { errcode = 10017; info = where_text p }))
    mismatched : Tells (returned false) (
        exception (record {
          errcode = 10003;
          info =
              codes "Mismatch remote method id: Mismatched method was invoked: "
              ++ ((where_text p ++ codes ": ")
                  ++ codes "Mismatch remote method id: Mismatched method was invoked");
        }))

  Tells-answer :
      (strerror : ℕ → List ℕ) (invoked : Invoked Obj) (v : Thrown Obj)
      → Tells invoked v
      → (x : Raised Obj) × (raised_by strerror invoked ≡ some x)
        × (answer_of strerror base_what p x ≡ some v)
  unfolding answer_of raised_by of_code of_reasons add_info
  Tells-answer strerror _ _ (a_number s x) = (value (number s x), refl, refl)
  Tells-answer strerror _ _ (a_bool b) = (value (bool b), refl, refl)
  Tells-answer strerror _ _ (a_char x) = (value (char x), refl, refl)
  Tells-answer strerror _ _ (a_uchar x) = (value (uchar x), refl, refl)
  Tells-answer strerror _ _ (a_string s) = (value (string s), refl, refl)
  Tells-answer strerror _ _ (an_object o) = (value (object o), refl, refl)
  Tells-answer strerror _ _ (without_text n) = (_, refl, refl)
  Tells-answer strerror _ _ (with_text n x xs) = (_, refl, rw (is_not_empty (length xs)) refl)
  Tells-answer strerror _ _ (standard_pointer what) = (std_pointer what, refl, refl)
  Tells-answer strerror _ _ standard = (std_value, refl, refl)
  Tells-answer strerror _ _ anything = (unknown, refl, refl)
  Tells-answer strerror _ _ mismatched = (_, refl, refl)

module _ (c : BufferClass) (laws : BufferLaws c) (enc : Encoding) (framing : EncodingLaws enc)
    (r : ComboxReader) (combox : ComboxLaws r) {Obj : Type 0} (objects : ObjectCodec Obj)
    (strerror : ℕ → List ℕ) (base_what : List ℕ) (place : Place) (has_appservice : Bool) where
  abbrev AnswerMessage : MessageHeader → Request → Invoked Obj → Option Object → Buffer → Type 0
  AnswerMessage storage req invoked obj packed =
      do_invoke c objects strerror base_what place has_appservice storage req invoked obj
      ≡ ok (answers packed, has_references obj)

  do_invoke-answers :
      (storage : MessageHeader) (req : Request) (conn : ℕ) (invoked : Invoked Obj)
      (obj : Option Object) (v : Thrown Obj)
      → req.from ≡ some conn
      → Tells base_what place invoked v
      → IsCarried c laws objects v
      → IsHeader req.buf.header
      → (packed : Buffer) × (exception_message c objects storage req.buf v ≡ ok packed)
        × AnswerMessage storage req invoked obj packed
  unfolding do_invoke
  do_invoke-answers storage req conn invoked obj v from tells k w =
      let (x, thrown, answer) = Tells-answer base_what place strerror invoked v tells in
      let (packed, e, _, _, _, _, _) =
        exception_message-Adds c laws objects storage req.buf v k w in
      (packed, e, rw (thrown, answer, from, e) refl)

  -- A call whose method throws (or that the object does not know) is answered if it has a
  -- connection: DoInvoke makes a message for what the caller is to be told and returns whether the
  -- object still has references. A value of a type that messages carry is told as it is, but an
  -- exception with the class and the access point of the object behind its text; for a
  -- std::exception, anything else or an unknown method there is an exception of the code 10014,
  -- 10017 or 10003 with this place. When the message, of less than 2 ^ 31 bytes, comes to the
  -- caller, CheckAndThrow throws what is to be told there.
  pub do_invoke_rethrown :
      (storage : MessageHeader) (req : Request) (conn : ℕ) (invoked : Invoked Obj)
      (obj : Option Object) (v : Thrown Obj) (b₀ sent : Buffer) (st : r.State) (more : List ℕ)
      → req.from ≡ some conn
      → Tells base_what place invoked v
      → IsCarried c laws objects v
      → IsHeader req.buf.header
      → ((packed : Buffer)
          → AnswerMessage storage req invoked obj packed
          → IsSmall packed × (get_load enc packed ≡ some sent))
      → combox.Delivers st (sent.packeddata ++ more)
      → (packed : Buffer) × AnswerMessage storage req invoked obj packed
        × (b' : Buffer) × (st' : r.State) × (recv enc r b₀ st ≡ done (b', st'))
        × (check_and_throw c objects b' ≡ ok (some v))
        × combox.Delivers st' more
  do_invoke_rethrown storage req conn invoked obj v b₀ sent st more from tells k w small d =
      let (packed, e, answered) = do_invoke-answers storage req conn invoked obj v from tells k w in
      let (few, load) = small packed answered in
      let (b', st', received, again, d') =
        thrown_again c laws enc framing r combox objects storage req.buf b₀ packed sent v st more k
          w e few load d in
      (packed, answered, b', st', received, again, d')
