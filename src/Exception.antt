-- ===== src/Exception.antt =====
-- pop_exception (lib/core/exception.cc) and the way exceptions cross the network: SendException and
-- CheckAndThrow of pop_buffer (lib/core/buffer.cc).
pub mod Codes
pub mod Laws
pub mod Remote
pub mod Examples
use pop_cpp.Base.{
  ℕ, zero, suc, ◌+◌, ◌^◌, ◌<◌, Bool, true, false, List, [], ◌∷◌, ◌++◌, length, Option, none, some,
  Result, ok, err, thrown, ◌>>=◌, ltb, ◌==◌, if◌then◌else◌,
}
use pop_cpp.Base.Bytes.{is_positive, wrap32}
use pop_cpp.Buffer.Types.{Buffer, MessageHeader, Item, Shape, Scalar}
use pop_cpp.Buffer.Header.{assign, exception_header, type_exception}
use pop_cpp.Buffer.Queue.{BufferClass}
use pop_cpp.Buffer.Text.{numbers, first, c_string, pack_int, unpack_int, pack_string, unpack_string}
use Codes.{PopException, unknown_exception}

-- The values that SendException is overloaded for. `object` stands for a pop_interface, whose
-- serialization is a parameter.
pub data Thrown (Obj : Type 0) : Type 0 where
  number : Scalar → ℕ → Thrown Obj
  bool : Bool → Thrown Obj
  char : ℕ → Thrown Obj
  uchar : ℕ → Thrown Obj
  string : Option (List ℕ) → Thrown Obj
  exception : PopException → Thrown Obj
  object : Obj → Thrown Obj

-- EXCEPTION_INT, ...
abbrev pub number_code : Scalar → ℕ
number_code Scalar.int = 1
number_code Scalar.uint = 2
number_code Scalar.long = 3
number_code Scalar.ulong = 4
number_code Scalar.short = 5
number_code Scalar.ushort = 6
number_code Scalar.float = 11
number_code Scalar.double = 12

abbrev pub exception_code : {Obj : Type 0} → Thrown Obj → ℕ
exception_code (number s x) = number_code s
exception_code (bool b) = 7
exception_code (char x) = 8
exception_code (uchar x) = 9
exception_code (string s) = 10
exception_code (exception e) = 14
exception_code (object o) = 13

-- pop_interface::Serialize
pub record ObjectCodec (Obj : Type 0) : Type 0 where
  pub pack_object : Obj → Buffer → Result Buffer
  pub unpack_object : Buffer → Result (Obj × Buffer)

abbrev pub bits : Item → List Bool
bits (Item.bools bs) = bs
bits _ = []

abbrev pub first_bit : List Bool → Bool
first_bit [] = false
first_bit (b ∷ bs) = b

module _ (c : BufferClass) where
  -- pop_exception::Serialize
  unfoldable pub pack_exception : PopException → Buffer → Result Buffer
  pack_exception e b = pack_int c e.errcode b >>= λ b'. pack_string c e.info b'

  unfoldable pub unpack_exception : Buffer → Result (PopException × Buffer)
  unpack_exception b = unpack_int c b >>= λ code.
      unpack_string c code.1 >>= λ info. ok (record { errcode = code.0; info = info.0 }, info.1)

  module _ {Obj : Type 0} (objects : ObjectCodec Obj) where
    -- The value behind the header.
    unfoldable pub pack_thrown : Thrown Obj → Buffer → Result Buffer
    pack_thrown (number s x) b = c.pack (Item.scalars s (x ∷ [])) b
    pack_thrown (bool v) b = c.pack (Item.bools (v ∷ [])) b
    pack_thrown (char x) b = c.pack (Item.chars (x ∷ [])) b
    pack_thrown (uchar x) b = c.pack (Item.chars (x ∷ [])) b
    pack_thrown (string none) b = pack_int c 0 b >>= λ b'. c.pack (Item.chars []) b'
    pack_thrown (string (some s)) b =
        pack_int c (wrap32 (length s + 1)) b >>= λ b'. c.pack (Item.chars (s ++ 0 ∷ [])) b'
    pack_thrown (exception e) b = pack_exception e b
    pack_thrown (object o) b = objects.pack_object o b

    -- SendException, up to the call of Send. The temporary header is made in some storage.
    unfoldable pub exception_message : MessageHeader → Buffer → Thrown Obj → Result Buffer
    exception_message storage except v =
        let tmp = exception_header storage (exception_code v) except.header.method_name in
        let b = c.reset except in pack_thrown v (record b { header = assign b.header tmp })

    unfoldable pub unpack_number : Scalar → Buffer → Result (Thrown Obj)
    unpack_number s b = c.unpack (Shape.scalars s 1) b >>= λ r. ok (number s (first (numbers r.0)))

    -- The cases of CheckAndThrow.
    unfoldable pub unpack_thrown : ℕ → Buffer → Result (Thrown Obj)
    unpack_thrown code b =
        if code == 1
        then unpack_number Scalar.int b
        else if code == 2
        then unpack_number Scalar.uint b
        else if code == 3
        then unpack_number Scalar.long b
        else if code == 4
        then unpack_number Scalar.ulong b
        else if code == 5
        then unpack_number Scalar.short b
        else if code == 6
        then unpack_number Scalar.ushort b
        else if code == 7
        then (c.unpack (Shape.bools 1) b >>= λ r. ok (bool (first_bit (bits r.0))))
        else if code == 8
        then (c.unpack (Shape.chars 1) b >>= λ r. ok (char (first (numbers r.0))))
        else if code == 9
        then (c.unpack (Shape.chars 1) b >>= λ r. ok (uchar (first (numbers r.0))))
        else if code == 10
        then (unpack_int c b >>= λ len.
            if is_positive len.0
            then (c.unpack (Shape.chars len.0) len.1 >>= λ r.
                c_string (numbers r.0) >>= λ s. ok (string (some s)))
            else ok (string none))
        else if code == 11
        then unpack_number Scalar.float b
        else if code == 12
        then unpack_number Scalar.double b
        else if code == 14
        then (unpack_exception b >>= λ r. ok (exception r.0))
        else if code == 13
        then (objects.unpack_object b >>= λ r. ok (object r.0))
        else err (thrown unknown_exception)

    -- CheckAndThrow: what is thrown, or none for a message that carries no exception.
    unfoldable pub check_and_throw : Buffer → Result (Option (Thrown Obj))
    check_and_throw except =
        if except.header.type == type_exception
        then (unpack_thrown except.header.exception except >>= λ v. ok (some v))
        else ok none
