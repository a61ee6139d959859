-- ===== src/Buffer/Raw/Bounds.antt =====
-- The wrap-around of `int` in the reads of the raw buffer, for any count that a message may hold.
use pop_cpp.Base.{
  ℕ, ◌+◌, ◌^◌, ◌≤◌, ◌<◌, ◌≡◌, List, [], take, drop, length, Result, ok, err, buffer_format, arith,
  leb, if◌then◌else◌,
}
use pop_cpp.Base.Bytes.{is_positive}
use pop_cpp.Buffer.Types.{Buffer}
use pop_cpp.Buffer.Store.{check_unpack, round4}
use pop_cpp.Buffer.Raw.{unpack_chars}

-- UnPack(char *, int) in plain arithmetic: nothing for n ≤ 0, the next `n` bytes where there are so
-- many, and an exception otherwise.
abbrev pub plain_unpack_chars : ℕ → Buffer → Result (List ℕ × Buffer)
plain_unpack_chars n b =
    if is_positive n
    then if leb (b.unpackpos + n) (length b.packeddata)
      then ok
          (take n (drop b.unpackpos b.packeddata), record b { unpackpos = b.unpackpos + round4 n })
      else err buffer_format
    else ok ([], b)

-- For every 32-bit count, and every reading position inside a buffer of less than 2 ^ 31 - 4 bytes,
-- UnPack(char *, int) does what it does in plain arithmetic: no count makes it read past the end.
pub unpack_chars-plain :
    (n : ℕ) (b : Buffer)
    → n < 2 ^ 32
    → b.unpackpos ≤ length b.packeddata
    → length b.packeddata + 4 < 2 ^ 31
    → unpack_chars n b ≡ plain_unpack_chars n b
unfolding unpack_chars check_unpack round4
unpack_chars-plain n b h pos small = ground arith
