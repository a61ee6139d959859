-- ===== src/Buffer/Types.antt =====
-- The data that a message buffer takes and gives (include/core/pop_buffer.h) and the members that
-- both buffer classes have (include/core/pop_buffer_raw.h, include/core/pop_buffer_xdr.h).
use pop_cpp.Base.{ℕ, Bool, List, Option, length}

-- `id[0]`, `id[1]`, `id[2]` are the class, the method and the semantics. An `int` is its 32 bits.
pub record MessageHeader : Type 0 where
  pub type : ℕ
  pub class_id : ℕ
  pub method_id : ℕ
  pub semantics : ℕ
  pub method_name : Option (List ℕ)
  pub exception : ℕ

pub record Buffer : Type 0 where
  pub header : MessageHeader
  pub unpackpos : ℕ
  pub packeddata : List ℕ

-- The arithmetic types that `Pack` and `UnPack` are overloaded for, other than the types of one
-- byte. Values are bit patterns.
pub data Scalar : Type 0 where
  int uint long ulong short ushort float double : Scalar

-- `sizeof`, on a platform with 64-bit longs.
abbrev pub width : Scalar → ℕ
width Scalar.int = 4
width Scalar.uint = 4
width Scalar.long = 8
width Scalar.ulong = 8
width Scalar.short = 2
width Scalar.ushort = 2
width Scalar.float = 4
width Scalar.double = 8

-- An argument of one call of `Pack`: the array and its length.
pub data Item : Type 0 where
  scalars : Scalar → List ℕ → Item
  bools : List Bool → Item
  chars : List ℕ → Item

-- What the reader says: the overload of `UnPack`, and `n`.
pub data Shape : Type 0 where
  scalars : Scalar → ℕ → Shape
  bools : ℕ → Shape
  chars : ℕ → Shape

abbrev pub shape : Item → Shape
shape (Item.scalars s xs) = Shape.scalars s (length xs)
shape (Item.bools bs) = Shape.bools (length bs)
shape (Item.chars cs) = Shape.chars (length cs)
