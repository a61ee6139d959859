-- ===== src/Buffer/Text.antt =====
-- Strings and vectors in a message: the members of pop_buffer that are built on the virtual ones
-- (lib/core/buffer.cc, include/core/pop_buffer.h).
pub mod Laws
pub mod Chain
use pop_cpp.Base.{
  ℕ, zero, suc, ◌+◌, ◌^◌, ◌<◌, List, [], ◌∷◌, ◌++◌, length, Result, ok, err, ◌>>=◌, undefined,
  length_error, ltb, ◌==◌, if◌then◌else◌,
}
use pop_cpp.Base.Bytes.{is_positive, wrap32}
use pop_cpp.Buffer.Types.{Buffer, Item, Shape, Scalar}
use pop_cpp.Buffer.Queue.{BufferClass}

-- The array that an UnPack has filled.
abbrev pub numbers : Item → List ℕ
numbers (Item.scalars s xs) = xs
numbers (Item.bools bs) = []
numbers (Item.chars cs) = cs

abbrev pub first : List ℕ → ℕ
first [] = 0
first (x ∷ xs) = x

-- `*list = tmpstr.data()`: the text ends at the first zero. Without one the copy reads past the
-- vector.
unfoldable pub c_string : List ℕ → Result (List ℕ)
c_string [] = err undefined
c_string (c ∷ cs) = let rest = c_string cs in if c == 0 then ok [] else (rest >>= λ s. ok (c ∷ s))

module _ (c : BufferClass) where
  -- One number, as `int x; buf.Pack(&x, 1)` and `buf.UnPack(&x, 1)`.
  unfoldable pub pack_int : ℕ → Buffer → Result Buffer
  pack_int x b = c.pack (Item.scalars Scalar.int (x ∷ [])) b

  unfoldable pub unpack_int : Buffer → Result (ℕ × Buffer)
  unpack_int b = c.unpack (Shape.scalars Scalar.int 1) b >>= λ r. ok (first (numbers r.0), r.1)

  -- One round of Pack(const std::string *, int): the length with the final zero, and the bytes.
  unfoldable pub pack_string : List ℕ → Buffer → Result Buffer
  pack_string s b =
      let len = wrap32 (length s + 1) in
      pack_int len b >>= λ b'.
      if is_positive len then c.pack (Item.chars (s ++ 0 ∷ [])) b' else ok b'

  unfoldable pub pack_strings : List (List ℕ) → Buffer → Result Buffer
  pack_strings [] b = ok b
  pack_strings (s ∷ ss) b = pack_string s b >>= λ b'. pack_strings ss b'

  -- One round of UnPack(std::string *, int).
  unfoldable pub unpack_string : Buffer → Result (List ℕ × Buffer)
  unpack_string b = unpack_int b >>= λ len.
      if is_positive len.0
      then (c.unpack (Shape.chars len.0) len.1 >>= λ r. c_string (numbers r.0) >>= λ s. ok (s, r.1))
      else ok ([], len.1)

  unfoldable pub unpack_strings : ℕ → Buffer → Result (List (List ℕ) × Buffer)
  unpack_strings zero b = ok ([], b)
  unpack_strings (suc n) b =
      unpack_string b >>= λ r. unpack_strings n r.1 >>= λ rs. ok (r.0 ∷ rs.0, rs.1)

  -- Pack(const std::vector<T> *, 1), for an arithmetic type.
  unfoldable pub pack_numbers : Scalar → List ℕ → Buffer → Result Buffer
  pack_numbers t xs b =
      let s = wrap32 (length xs) in
      pack_int s b >>= λ b'. if is_positive s then c.pack (Item.scalars t xs) b' else ok b'

  -- UnPack(std::vector<T> *, 1): `resize` throws for a negative size.
  unfoldable pub unpack_numbers : Scalar → Buffer → Result (List ℕ × Buffer)
  unpack_numbers t b = unpack_int b >>= λ s.
      if ltb s.0 (2 ^ 31)
      then if is_positive s.0
        then (c.unpack (Shape.scalars t s.0) s.1 >>= λ r. ok (numbers r.0, r.1))
        else ok ([], s.1)
      else err length_error
