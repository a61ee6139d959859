-- ===== src/Buffer/Wire/Framing.antt =====
-- What is sent is received, however the connection cuts it into pieces.
use pop_cpp.Base.{
  ℕ, ◌+◌, ◌-◌, ◌*◌, ◌^◌, ◌≤◌, ◌<◌, ◌≡◌, refl, sym, ap, ◌∙◌, false, List, [], ◌∷◌, ◌++◌, length,
  length-append, take, drop, replicate, drop-append_length, length-drop, take-append_length,
  append_assoc, append-nil, le_refl, some, arith, ◌==◌, ltb, leb, ◌||◌, All,
}
use pop_cpp.Base.Bytes.{
  IsWord, length-le_array, read_le_array-le_array, be_bytes, length-be_bytes, from_be-be_bytes,
}
use pop_cpp.Buffer.Types.{MessageHeader, Buffer}
use pop_cpp.Buffer.Store.{resize, write, write-resize, length-resize, IsSmall}
use pop_cpp.Buffer.Header.{IsHeader, SameMessage, header_words, header_words-cases, set_words}
use pop_cpp.Buffer.Connection.{ComboxReader, ComboxLaws, done, recv_loop_delivered}
use pop_cpp.Buffer.Wire.{
  Encoding, raw_encoding, xdr_encoding, htonl_words, ntohl_words, put_header, get_load, read_words,
  recv_body, recv,
}
use mathlib.Core.Path.{ap₂}
use pop_cpp.Buffer.Raw
use pop_cpp.Buffer.Xdr

-- What framing needs of a class: words survive the wire, four bytes each, and a reset buffer has
-- room for the header and reads from behind it.
pub record EncodingLaws (enc : Encoding) : Type 0 where
  pub length-to_wire : (ws : List ℕ) → length (enc.to_wire ws) ≡ length ws * 4
  pub from_wire-to_wire :
      (ws : List ℕ) → length ws ≡ 5 → All (IsWord 4) ws → enc.from_wire (enc.to_wire ws) ≡ ws
  pub reset_size : (b : Buffer) → length (enc.reset b).packeddata ≡ 20
  pub reset_position : (b : Buffer) → (enc.reset b).unpackpos ≡ 20

pub raw_encoding_laws : EncodingLaws raw_encoding
unfolding raw_encoding Raw.reset
raw_encoding_laws = record {
  length-to_wire = length-le_array 4;
  from_wire-to_wire = λ ws five words. rw (← five) (read_le_array-le_array 4 ws words);
  reset_size = λ b. length-resize 20 b.packeddata;
  reset_position = λ b. refl;
}

length-htonl_words : (ws : List ℕ) → length (htonl_words ws) ≡ length ws * 4
unfolding htonl_words
length-htonl_words [] = omega arith
length-htonl_words (w ∷ ws) = omega (
  arith,
  length-append (be_bytes 4 w) (htonl_words ws),
  length-be_bytes 4 w,
  length-htonl_words ws,
)

four_front : (xs ys : List ℕ) → length xs ≡ 4 → (take 4 (xs ++ ys) ≡ xs) × (drop 4 (xs ++ ys) ≡ ys)
four_front xs ys h = (rw (← h) (take-append_length xs ys), rw (← h) (drop-append_length xs ys))

ntohl_words-htonl_words :
    (ws : List ℕ) → All (IsWord 4) ws → ntohl_words (length ws) (htonl_words ws) ≡ ws
unfolding htonl_words ntohl_words
ntohl_words-htonl_words [] h = refl
ntohl_words-htonl_words (w ∷ ws) h =
    let (front, rest) = four_front (be_bytes 4 w) (htonl_words ws) (length-be_bytes 4 w) in
    rw (front, rest, from_be-be_bytes 4 w h.0, ntohl_words-htonl_words ws h.1)

pub xdr_encoding_laws : EncodingLaws xdr_encoding
unfolding xdr_encoding Xdr.reset
xdr_encoding_laws = record {
  length-to_wire = length-htonl_words;
  from_wire-to_wire = λ ws five words. rw (← five) (ntohl_words-htonl_words ws words);
  reset_size = λ b. length-resize 20 [];
  reset_position = λ b. refl;
}

write_front : (w p : List ℕ) → length w ≡ 20 → write 0 w p ≡ w ++ drop 20 p
unfolding write
write_front w p h = ap (λ (k : ℕ). w ++ drop k p) {y = 20} (omega arith)

-- The data, behind the 20 bytes of a buffer that has been reset.
write_body :
    (front body : List ℕ) (n : ℕ)
    → length front ≡ 20
    → length body + 20 ≡ n
    → write 20 body (resize n front) ≡ front ++ body
write_body front body n h k =
    ap₂ (λ (t m : ℕ). write t body (resize m front)) (sym h) (omega arith)
    ∙ write-resize front body (length body) (le_refl _)
    ∙ ap (λ (m : ℕ). front ++ (body ++ replicate m 0)) {y = 0} (omega arith)
    ∙ ap (◌++◌ front) (append-nil body)

past_front : (front body : List ℕ) → length front ≡ 20 → drop 20 (front ++ body) ≡ body
past_front front body h = rw (← h) (drop-append_length front body)

some_inj : {a b : Buffer} → some a ≡ some b → a ≡ b
some_inj e = cc

module _ (enc : Encoding) (laws : EncodingLaws enc) where
  get_load_lem :
      (b : Buffer) (words : List ℕ)
      → 20 ≤ length b.packeddata
      → length words ≡ 5
      → header_words b.header (length b.packeddata) ≡ some words
      → get_load enc b ≡ some (record b { packeddata = enc.to_wire words ++ drop 20 b.packeddata })
  unfolding get_load put_header
  get_load_lem b words big five e =
      rw (some_memory, e)
        (ap (λ (v : List ℕ). some (record b { packeddata = v }))
          (write_front (enc.to_wire words) b.packeddata (omega (arith, laws.length-to_wire words))))
    where
      some_memory : (length b.packeddata == 0) ≡ false
      some_memory = ground arith

  module _ (c : ComboxReader) (combox : ComboxLaws c) where
    recv_body_lem :
        (b : Buffer) (st : c.State) (n : ℕ) (h : MessageHeader) (body more : List ℕ)
        → length b.packeddata ≡ 20
        → length body + 20 ≡ n
        → combox.Delivers st (body ++ more)
        → (st' : c.State) × (recv_body enc c (some (n, h)) b st
            ≡ done (record b { header = h; packeddata = b.packeddata ++ body }, st'))
          × combox.Delivers st' more
    unfolding recv_body
    recv_body_lem b st n h body more front len d =
        let (st', e, d') =
          recv_loop_delivered c combox (n - 20) (n - 20) st body more (omega arith) (le_refl _) d in
        (st', rw (e, write_body b.packeddata body n front len) refl, d')

    recv_lem :
        (b : Buffer) (st : c.State) (words : List ℕ) (n : ℕ) (h : MessageHeader)
        (body more : List ℕ)
        → length words ≡ 5
        → All (IsWord 4) words
        → read_words enc words (enc.reset b).header ≡ some (n, h)
        → length body + 20 ≡ n
        → combox.Delivers st ((enc.to_wire words ++ body) ++ more)
        → (st' : c.State) × (recv enc c b st
            ≡ done (
              record (enc.reset b) { header = h; packeddata = (enc.reset b).packeddata ++ body },
              st',
            ))
          × combox.Delivers st' more
    unfolding recv
    recv_lem b st words n h body more five ws e len d =
        let (st', e', d') =
          recv_loop_delivered c combox 20 20 st (enc.to_wire words) (body ++ more)
            (omega (arith, laws.length-to_wire words)) (le_refl _) (rw append_assoc at d) in
        let (st'', e'', d'') =
          recv_body_lem (enc.reset b) st' n h body more (laws.reset_size b) len d' in
        (st'', rw (e', laws.from_wire-to_wire words five ws, e) e'', d'')

    read_words_lem :
        (n : ℕ) (type h2 h3 h4 : ℕ) (this h : MessageHeader)
        → 20 ≤ n
        → n < 2 ^ 31
        → set_words type h2 h3 h4 this ≡ some h
        → read_words enc (n ∷ type ∷ h2 ∷ h3 ∷ h4 ∷ []) this ≡ some (n, h)
    unfolding read_words
    read_words_lem n type h2 h3 h4 this h big small e = rw (in_range, e)
      where
        in_range : (ltb n 20 || leb (2 ^ 31) n) ≡ false
        in_range = ground arith

    -- A message with a known type goes through the wire: from what get_load (or Send) wrote, cut
    -- into pieces in any way, Recv makes a buffer with the same message header and the same data,
    -- to be read from the start, and it leaves what follows on the connection.
    pub recv-get_load :
        (b b₀ sent : Buffer) (st : c.State) (more : List ℕ)
        → IsHeader b.header
        → b.header.type < 3
        → 20 ≤ length b.packeddata
        → IsSmall b
        → get_load enc b ≡ some sent
        → combox.Delivers st (sent.packeddata ++ more)
        → (b' : Buffer) × (st' : c.State) × (recv enc c b₀ st ≡ done (b', st'))
          × SameMessage b'.header b.header
          × (b'.unpackpos ≡ 20)
          × (drop 20 b'.packeddata ≡ drop 20 b.packeddata)
          × (length b'.packeddata ≡ length b.packeddata)
          × combox.Delivers st' more
    recv-get_load b b₀ sent st more v known big small e d =
        let (h2, h3, h4, words, ws, h, set, same) =
          header_words-cases b.header (enc.reset b₀).header n v (omega arith) known in
        let (st', e', d') =
          recv_lem b₀ st (n ∷ b.header.type ∷ h2 ∷ h3 ∷ h4 ∷ []) n h (drop 20 b.packeddata) more
            refl ws (read_words_lem n b.header.type h2 h3 h4 _ h big small set)
            (omega (arith, length-drop 20 b.packeddata)) (rw (wire_bytes words) at d) in
        (
          record (enc.reset b₀) {
            header = h;
            packeddata = (enc.reset b₀).packeddata ++ drop 20 b.packeddata;
          },
          st',
          e',
          same,
          laws.reset_position b₀,
          past_front _ _ (laws.reset_size b₀),
          whole,
          d',
        )
      where
        n : ℕ
        n = length b.packeddata

        wire_bytes :
            {h2 h3 h4 : ℕ}
            → header_words b.header n ≡ some (n ∷ b.header.type ∷ h2 ∷ h3 ∷ h4 ∷ [])
            → sent.packeddata
              ≡ enc.to_wire (n ∷ b.header.type ∷ h2 ∷ h3 ∷ h4 ∷ []) ++ drop 20 b.packeddata
        wire_bytes words =
            ap (λ (x : Buffer). x.packeddata) (some_inj (sym e ∙ get_load_lem b _ big refl words))

        whole : length ((enc.reset b₀).packeddata ++ drop 20 b.packeddata) ≡ n
        whole = omega (
          arith,
          length-append (enc.reset b₀).packeddata (drop 20 b.packeddata),
          laws.reset_size b₀,
          length-drop 20 b.packeddata,
        )
