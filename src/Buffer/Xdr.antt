-- ===== src/Buffer/Xdr.antt =====
-- lib/dynamic/buffer_xdr.cc: numbers are packed by the XDR library of the platform, which is a
-- parameter here; `char` and `bool` are copied as in the raw buffer.
pub mod Library
pub mod Bools
pub mod Laws
use pop_cpp.Base.{
  ℕ, zero, suc, ◌+◌, ◌*◌, ◌%◌, ◌^◌, Bool, List, [], ◌∷◌, map, length, take, drop, Option, none,
  some, Result, ok, err, ◌>>=◌, ltb, if◌then◌else◌, serialization,
}
use pop_cpp.Base.Bytes.{is_positive, wrap32, to_size}
use pop_cpp.Base.Int.{ℤ, pos, negsuc, pos_part, quot, scale, ◌+ℤ◌, ◌-ℤ◌}
use pop_cpp.Buffer.Types.{Buffer, Item, Shape, Scalar}
use pop_cpp.Buffer.Store.{resize, write, round4, check_unpack}
use pop_cpp.Buffer.Queue.{BufferClass}
use pop_cpp.Buffer.Raw.{pack_chars, unpack_chars, bool_byte, byte_bool}
use Library.{XdrLibrary, space}

-- pop_buffer_xdr::Reset
unfoldable pub reset : Buffer → Buffer
reset b = record b { unpackpos = 20; packeddata = resize 20 [] }

-- `while (n-- > 0) { *data = (*dat != 0); dat++; data++; }`: the values, and `n` after the loop.
unfoldable pub read_bools : ℕ → List ℕ → List Bool × ℤ
read_bools zero dat = ([], pos 0 -ℤ pos 1)
read_bools (suc n) [] = ([], pos 0 -ℤ pos 1)
read_bools (suc n) (c ∷ dat) = let r = read_bools n dat in (byte_bool c ∷ r.0, r.1)

-- `((n - 1) / 4 + 1) * 4` on an `int`, whose division rounds towards 0.
unfoldable pub loop_step : ℤ → ℤ
loop_step n = scale 4 (quot (n -ℤ pos 1) 4 +ℤ pos 1)

-- UnPack(bool *data, int n): the position moves by `((n - 1) / 4 + 1) * 4`, for the `n` that the
-- loop has left.
unfoldable pub unpack_bools : ℕ → Buffer → Result (List Bool × Buffer)
unpack_bools n b =
    if is_positive n
    then (check_unpack n b >>= λ _.
        let r = read_bools n (drop b.unpackpos b.packeddata) in
        ok (r.0, record b { unpackpos = wrap32 (pos_part (pos b.unpackpos +ℤ loop_step r.1)) }))
    else ok ([], b)

module _ (lib : XdrLibrary) where
  -- Pack of an array of numbers: each overload makes room for `n` values and has `xdr_vector`
  -- fill it.
  unfoldable pub pack_vector : Scalar → List ℕ → Buffer → Result Buffer
  pack_vector s xs b =
      let n = length xs in
      if is_positive n
      then (let sz = wrap32 (n * space s) in
          let oldsize = length b.packeddata in
          elim (lib.encode s xs sz) [
            | none ↦ err serialization
            | some bytes ↦ ok (record b {
              packeddata = write oldsize bytes (resize (oldsize + to_size sz) b.packeddata);
            })
          ])
      else ok b

  -- UnPack of an array of numbers.
  unfoldable pub unpack_vector : Scalar → ℕ → Buffer → Result (List ℕ × Buffer)
  unpack_vector s n b =
      if is_positive n
      then (let sz = wrap32 (n * space s) in
          check_unpack sz b >>= λ _.
          elim (lib.decode s n (take sz (drop b.unpackpos b.packeddata))) [
            | none ↦ err serialization
            | some xs ↦ ok (xs, record b { unpackpos = wrap32 (b.unpackpos + sz) })
          ])
      else ok ([], b)

  -- The overloads of Pack.
  unfoldable pub pack : Item → Buffer → Result Buffer
  pack (Item.scalars s xs) b = pack_vector s xs b
  pack (Item.bools bs) b = ok (pack_chars (map bool_byte bs) (wrap32 (length bs)) b)
  pack (Item.chars cs) b = ok (pack_chars cs (wrap32 (length cs)) b)

  -- The overloads of UnPack.
  unfoldable pub unpack : Shape → Buffer → Result (Item × Buffer)
  unpack (Shape.scalars s n) b = unpack_vector s n b >>= λ r. ok (Item.scalars s r.0, r.1)
  unpack (Shape.bools n) b = unpack_bools n b >>= λ r. ok (Item.bools r.0, r.1)
  unpack (Shape.chars n) b = unpack_chars (wrap32 n) b >>= λ r. ok (Item.chars r.0, r.1)

  unfoldable pub xdr_class : BufferClass
  xdr_class = record { reset = reset; pack = pack; unpack = unpack }
