-- ===== src/Buffer/Raw.antt =====
-- lib/dynamic/buffer_raw.cc: data is copied as it lies in memory, lowest byte first, in units of 4.
pub mod Chars
pub mod Bounds
pub mod Laws
use pop_cpp.Base.{
  ℕ, zero, suc, ◌+◌, ◌*◌, ◌%◌, ◌^◌, ◌<◌, Bool, List, [], ◌∷◌, map, not, length, take, drop, Result,
  ok, ◌>>=◌, ltb, ◌==◌, if◌then◌else◌,
}
use pop_cpp.Base.Bytes.{le_array, read_le_array, is_positive, wrap32, to_size}
use pop_cpp.Buffer.Types.{Buffer, Item, Shape, width}
use pop_cpp.Buffer.Store.{resize, write, round4, check_unpack}
use pop_cpp.Buffer.Queue.{BufferClass}

-- pop_buffer_raw::Reset
unfoldable pub reset : Buffer → Buffer
reset b = record b { unpackpos = 20; packeddata = resize 20 b.packeddata }

-- Pack(const char *data, int n): `src` is the memory that `data` points to.
unfoldable pub pack_chars : List ℕ → ℕ → Buffer → Buffer
pack_chars src n b =
    if is_positive n
    then record b {
      packeddata =
          let t = length b.packeddata in write t (take n src) (resize (t + round4 n) b.packeddata);
    }
    else b

-- UnPack(char *data, int n). Nothing is copied if n ≤ 0.
unfoldable pub unpack_chars : ℕ → Buffer → Result (List ℕ × Buffer)
unpack_chars n b =
    if is_positive n
    then (check_unpack n b >>= λ _. ok (
      take n (drop b.unpackpos b.packeddata),
      record b { unpackpos = wrap32 (b.unpackpos + round4 n) },
    ))
    else ok ([], b)

-- A `bool` in memory.
abbrev pub bool_byte : Bool → ℕ
bool_byte b = if b then 1 else 0

abbrev pub byte_bool : ℕ → Bool
byte_bool c = not (c == 0)

-- The overloads of Pack: each passes the memory of the array on, `n * sizeof` bytes.
unfoldable pub pack : Item → Buffer → Result Buffer
pack (Item.scalars s xs) b =
    ok (pack_chars (le_array (width s) xs) (wrap32 (length xs * width s)) b)
pack (Item.bools bs) b = ok (pack_chars (map bool_byte bs) (wrap32 (length bs)) b)
pack (Item.chars cs) b = ok (pack_chars cs (wrap32 (length cs)) b)

-- The overloads of UnPack. A destination that is not written keeps the zeros it was made with.
unfoldable pub unpack : Shape → Buffer → Result (Item × Buffer)
unpack (Shape.scalars s n) b = unpack_chars (wrap32 (n * width s)) b >>= λ r.
    ok (Item.scalars s (read_le_array (width s) n r.0), r.1)
unpack (Shape.bools n) b =
    unpack_chars (wrap32 n) b >>= λ r. ok (Item.bools (map byte_bool r.0), r.1)
unpack (Shape.chars n) b = unpack_chars (wrap32 n) b >>= λ r. ok (Item.chars r.0, r.1)

unfoldable pub raw_class : BufferClass
raw_class = record { reset = reset; pack = pack; unpack = unpack }
