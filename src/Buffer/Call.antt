-- ===== src/Buffer/Call.antt =====
-- A whole message: packed on one side, sent, received and unpacked on the other. This is what a
-- remote call relies on, in either encoding.
use pop_cpp.Base.{
  ℕ, ◌<◌, ◌≡◌, sym, ◌∙◌, List, [], ◌++◌, map, some, All, append-nil, ok_injective, All-mono, ok,
  arith,
}
use mathlib.Core.Path.{subst}
use pop_cpp.Buffer.Types.{Buffer, Item, shape}
use pop_cpp.Buffer.Store.{IsSmall}
use pop_cpp.Buffer.Queue.{BufferClass, BufferLaws, Grows}
use pop_cpp.Buffer.Stream.{pack_all, unpack_all, pack_all-Holds, unpack_all-Holds}
use pop_cpp.Buffer.Header.{IsHeader, SameMessage}
use pop_cpp.Buffer.Connection.{ComboxReader, ComboxLaws, done}
use pop_cpp.Buffer.Wire.{Encoding, raw_encoding, xdr_encoding, get_load, recv}
use pop_cpp.Buffer.Wire.Framing.{EncodingLaws, raw_encoding_laws, xdr_encoding_laws, recv-get_load}
use pop_cpp.Buffer.Raw.{raw_class}
use pop_cpp.Buffer.Raw.Laws.{IsRaw, raw_laws, raw_laws_Fits}
use pop_cpp.Buffer.Xdr.{xdr_class}
use pop_cpp.Buffer.Xdr.Library.{XdrLibrary, XdrLaws}
use pop_cpp.Buffer.Xdr.Laws.{IsXdr, xdr_laws, xdr_laws_Fits}

module _ (c : BufferClass) (laws : BufferLaws c) (enc : Encoding) (framing : EncodingLaws enc)
    (r : ComboxReader) (combox : ComboxLaws r) where
  -- What arrives for a message of these items.
  abbrev pub Arrives : List Item → Buffer → Buffer → r.State → List ℕ → Type 0
  Arrives xs b b₀ st more =
      (b' : Buffer) × (b'' : Buffer) × (st' : r.State) × (recv enc r b₀ st ≡ done (b', st'))
      × SameMessage b'.header b.header
      × (unpack_all c (map shape xs) b' ≡ ok (xs, b''))
      × combox.Delivers st' more

  -- Packing into a buffer that has been reset, with whatever header, makes a message of the items.
  pub packed_message :
      (xs : List Item) (b packed : Buffer)
      → All laws.Fits xs
      → pack_all c xs (c.reset b) ≡ ok packed
      → laws.Holds packed xs × Grows (c.reset b) packed
  packed_message xs b packed fit e =
      let (b', e', h, g) = pack_all-Holds c laws xs [] (c.reset b) fit (laws.reset-Holds b) in
      let same : b' ≡ packed = ok_injective (sym e' ∙ e) in
      subst (λ p. laws.Holds p xs × Grows (c.reset b) p) same (h, g)

  pub call :
      (xs : List Item) (b b₀ packed sent : Buffer) (st : r.State) (more : List ℕ)
      → All laws.Fits xs
      → IsHeader b.header
      → b.header.type < 3
      → pack_all c xs (c.reset b) ≡ ok packed
      → IsSmall packed
      → get_load enc packed ≡ some sent
      → combox.Delivers st (sent.packeddata ++ more)
      → Arrives xs b b₀ st more
  call xs b b₀ packed sent st more fit v known e small load d =
      let (held, grows) = packed_message xs b packed fit e in
      let header : packed.header ≡ b.header = grows.same_header ∙ laws.reset_header b in
      let (b', st', received, same, at, data', size, d') =
        recv-get_load enc framing r combox packed b₀ sent st more (rw header v) (rw header known)
          (omega (arith, grows.longer, laws.reset_size b)) small load d in
      let moved : laws.Holds b' xs =
        laws.Holds-moved packed b' xs held (grows.same_position ∙ laws.reset_position b) at
          (omega (arith, size, grows.longer, laws.reset_size b)) data' in
      let (b'', unpacked, _, _) =
        unpack_all-Holds c laws xs b' [] (omega (arith, size)) (rw append-nil moved) in
      (b', b'', st', received, rw header at same, unpacked, d')

module _ (r : ComboxReader) (combox : ComboxLaws r) where
  -- In the raw encoding a message of items within their types (less than 2 ^ 31 bytes in all) that
  -- was packed into a reset buffer and sent with a known message type arrives: however the
  -- connection cuts the bytes into pieces, Recv gives a buffer with the same message header, the
  -- matching calls of UnPack give the items back, and what follows stays on the connection.
  pub raw_call :
      (xs : List Item) (b b₀ packed sent : Buffer) (st : r.State) (more : List ℕ)
      → All IsRaw xs
      → IsHeader b.header
      → b.header.type < 3
      → pack_all raw_class xs (raw_class.reset b) ≡ ok packed
      → IsSmall packed
      → get_load raw_encoding packed ≡ some sent
      → combox.Delivers st (sent.packeddata ++ more)
      → Arrives raw_class raw_laws raw_encoding raw_encoding_laws r combox xs b b₀ st more
  raw_call xs b b₀ packed sent st more fit =
      call raw_class raw_laws raw_encoding raw_encoding_laws r combox xs b b₀ packed sent st more
        (All-mono raw_laws_Fits xs fit)

  -- In the XDR encoding so does a message of items that the XDR library can encode, with at most
  -- four values in each array of `bool`.
  pub xdr_call :
      (lib : XdrLibrary) (xdr : XdrLaws lib) (xs : List Item) (b b₀ packed sent : Buffer)
      (st : r.State) (more : List ℕ)
      → All (IsXdr lib) xs
      → IsHeader b.header
      → b.header.type < 3
      → pack_all (xdr_class lib) xs ((xdr_class lib).reset b) ≡ ok packed
      → IsSmall packed
      → get_load xdr_encoding packed ≡ some sent
      → combox.Delivers st (sent.packeddata ++ more)
      → Arrives
          (xdr_class lib)
          (xdr_laws lib xdr)
          xdr_encoding
          xdr_encoding_laws
          r
          combox
          xs
          b
          b₀
          st
          more
  xdr_call lib xdr xs b b₀ packed sent st more fit =
      call (xdr_class lib) (xdr_laws lib xdr) xdr_encoding xdr_encoding_laws r combox xs b b₀ packed
        sent st more (All-mono (xdr_laws_Fits lib xdr) xs fit)
