-- ===== src/Exception/Remote.antt =====
-- An exception that a method throws on one side is thrown again on the other.
use pop_cpp.Base.{ℕ, ◌≤◌, length, ◌≡◌, sym, ◌∙◌, List, ◌++◌, some, ok, ok_injective, arith}
use mathlib.Core.Path.{subst}
use pop_cpp.Buffer.Types.{Buffer, MessageHeader}
use pop_cpp.Buffer.Store.{IsSmall}
use pop_cpp.Buffer.Header.{IsHeader, SameMessage-exception}
use pop_cpp.Buffer.Queue.{BufferClass, BufferLaws}
use pop_cpp.Buffer.Connection.{ComboxReader, ComboxLaws, done}
use pop_cpp.Buffer.Wire.{Encoding, get_load, recv}
use pop_cpp.Buffer.Wire.Framing.{EncodingLaws, recv-get_load}
use pop_cpp.Exception.{Thrown, exception_code, ObjectCodec, exception_message, check_and_throw}
use pop_cpp.Exception.Laws.{
  IsCarried, Announces, thrown_items, exception_message-Adds, check_and_throw_lem,
}

module _ (c : BufferClass) (laws : BufferLaws c) (enc : Encoding) (framing : EncodingLaws enc)
    (r : ComboxReader) (combox : ComboxLaws r) {Obj : Type 0} (objects : ObjectCodec Obj) where
  sent_message :
      (storage : MessageHeader) (except packed : Buffer) (v : Thrown Obj)
      → IsCarried c laws objects v
      → IsHeader except.header
      → exception_message c objects storage except v ≡ ok packed
      → Announces (exception_code v) packed.header
        × IsHeader packed.header
        × laws.Holds packed (thrown_items c laws objects v)
        × (packed.unpackpos ≡ 20)
        × (20 ≤ length packed.packeddata)
  sent_message storage except packed v k w e =
      let (b, e', a, w', h, p, q) = exception_message-Adds c laws objects storage except v k w in
      subst
        (λ b.
          Announces (exception_code v) b.header
          × IsHeader b.header
          × laws.Holds b (thrown_items c laws objects v)
          × (b.unpackpos ≡ 20)
          × (20 ≤ length b.packeddata))
        (ok_injective (sym e' ∙ e)) (a, w', h, p, q)

  -- The message that SendException makes for a value (a number, a truth value, a character, a C
  -- string or a pop_exception, within their types) is received, however the connection cuts it
  -- into pieces, as a buffer on which CheckAndThrow throws the same value, with the same type;
  -- what follows stays on the connection.
  pub thrown_again :
      (storage : MessageHeader) (except b₀ packed sent : Buffer) (v : Thrown Obj) (st : r.State)
      (more : List ℕ)
      → IsCarried c laws objects v
      → IsHeader except.header
      → exception_message c objects storage except v ≡ ok packed
      → IsSmall packed
      → get_load enc packed ≡ some sent
      → combox.Delivers st (sent.packeddata ++ more)
      → (b' : Buffer) × (st' : r.State) × (recv enc r b₀ st ≡ done (b', st'))
        × (check_and_throw c objects b' ≡ ok (some v))
        × combox.Delivers st' more
  thrown_again storage except b₀ packed sent v st more k w e small load d =
      let (a, w', held, at, big) = sent_message storage except packed v k w e in
      let (b', st', received, same, at', data', size, d') =
        recv-get_load enc framing r combox packed b₀ sent st more w' (omega (arith, a.0)) big small
          load d in
      let held' = laws.Holds-moved packed b' _ held at at' (omega (arith, size)) data' in
      let a' = SameMessage-exception b'.header packed.header same a.0 in
      (
        b',
        st',
        received,
        check_and_throw_lem c laws objects v b' k (omega (arith, size)) (a'.0, a'.1 ∙ a.1) held',
        d',
      )
