-- ===== src/Buffer/Wire.antt =====
-- A message on the wire: get_load, Send and Recv of pop_buffer_raw (lib/dynamic/buffer_raw.cc) and
-- pop_buffer_xdr (lib/dynamic/buffer_xdr.cc), which differ in the byte order of the header words.
pub mod Framing
use pop_cpp.Base.{
  ℕ, ◌+◌, ◌-◌, ◌*◌, ◌^◌, ◌<◌, ◌≡◌, Bool, List, [], ◌∷◌, length, Option, none, some, ltb, ◌==◌, ◌||◌,
  leb, if◌then◌else◌,
}
use pop_cpp.Base.Bytes.{le_array, read_le_array, be_bytes, from_be}
use pop_cpp.Base.{take, drop, zero, suc, ◌++◌}
use pop_cpp.Buffer.Types.{MessageHeader, Buffer}
use pop_cpp.Buffer.Store.{resize, write}
use pop_cpp.Buffer.Header.{header_words, set_words}
use pop_cpp.Buffer.Connection.{ComboxReader, Received, done, failed, stuck, ◌>>=◌, recv_loop}
use pop_cpp.Buffer.Raw
use pop_cpp.Buffer.Xdr

-- What differs between the classes.
pub record Encoding : Type 0 where
  pub reset : Buffer → Buffer
  pub to_wire : List ℕ → List ℕ
  pub from_wire : List ℕ → List ℕ

-- The words of `int h[5]`, as they lie in memory.
unfoldable pub raw_encoding : Encoding
raw_encoding = record { reset = Raw.reset; to_wire = le_array 4; from_wire = read_le_array 4 5 }

-- Each word through popc_htonl and popc_ntohl: the highest byte comes first.
unfoldable pub htonl_words : List ℕ → List ℕ
htonl_words [] = []
htonl_words (w ∷ ws) = be_bytes 4 w ++ htonl_words ws

unfoldable pub ntohl_words : ℕ → List ℕ → List ℕ
ntohl_words zero bytes = []
ntohl_words (suc n) bytes = from_be (take 4 bytes) ∷ ntohl_words n (drop 4 bytes)

unfoldable pub xdr_encoding : Encoding
xdr_encoding = record { reset = Xdr.reset; to_wire = htonl_words; from_wire = ntohl_words 5 }

module _ (enc : Encoding) where
  -- `memcpy(dat, h, 20)`, where there is a header.
  unfoldable pub put_header : Option (List ℕ) → Buffer → Option Buffer
  put_header none b = none
  put_header (some words) b =
      some (record b { packeddata = write 0 (enc.to_wire words) b.packeddata })

  -- get_load, and the part of Send before the call of the combox. None stands for the null pointer
  -- and for `return false`: there is no memory (an empty vector), or the type is unknown.
  unfoldable pub get_load : Buffer → Option Buffer
  get_load b =
      if length b.packeddata == 0
      then none
      else put_header (header_words b.header (length b.packeddata)) b

  -- What Recv makes of the 20 bytes of a header: the size and the header, or none where the size
  -- is below 20 (as an `int`) or the type unknown.
  unfoldable pub read_words : List ℕ → MessageHeader → Option (ℕ × MessageHeader)
  read_words (n ∷ type ∷ h2 ∷ h3 ∷ h4 ∷ []) this =
      if ltb n 20 || leb (2 ^ 31) n
      then none
      else elim (set_words type h2 h3 h4 this) [ none ↦ none | some h ↦ some (n, h) ]
  read_words _ this = none

  module _ (c : ComboxReader) where
    -- The second half of Recv: the data, into a buffer that has been reset.
    unfoldable pub recv_body :
        Option (ℕ × MessageHeader) → Buffer → c.State → Received (Buffer × c.State)
    recv_body none b st = failed
    recv_body (some (n, h)) b st =
        let room = resize n b.packeddata in
        recv_loop c (n - 20) (n - 20) st >>= λ r.
        done (record b { header = h; packeddata = write 20 r.0 room }, r.1)

    -- Recv. `failed` is `return false`.
    unfoldable pub recv : Buffer → c.State → Received (Buffer × c.State)
    recv b st = recv_loop c 20 20 st >>= λ r.
        let fresh = enc.reset b in recv_body (read_words (enc.from_wire r.0) fresh.header) fresh r.1
