-- ===== src/Buffer/BoundsExamples.antt =====
-- The theorems on the bounds of the buffers at concrete inputs.
use pop_cpp.Base.{
  ℕ, ◌+◌, ◌≤◌, ◌<◌, ◌≡◌, ◌≢◌, refl, ap, true, false, Bool, List, [], ◌∷◌, length, take, length-take,
  replicate, ok, some, arith,
}
use Prim.Native.Nat.{min}
use pop_cpp.Buffer.Types.{Buffer, Item, Shape}
use pop_cpp.Buffer.Raw
use pop_cpp.Buffer.Raw.Bounds.{plain_unpack_chars, unpack_chars-plain}
use pop_cpp.Buffer.Xdr
use pop_cpp.Buffer.Xdr.Bools.{bools_left_over}
use pop_cpp.Buffer.SampleXdr.{be_library}
use pop_cpp.Buffer.Samples.{slow, slow_recv, fresh}
use pop_cpp.Buffer.Connection.{stuck, recv_loop, recv_loop-ne-stuck}

-- A buffer with seven bytes behind the message header.
abbrev short : Buffer
short = record fresh { unpackpos = 20; packeddata = replicate 27 1 }

unpack_chars-plain_example : Raw.unpack_chars 4294967295 short ≡ plain_unpack_chars 4294967295 short
unpack_chars-plain_example =
    unpack_chars-plain 4294967295 short (omega arith) (omega arith) (omega arith)

abbrev read_up : Buffer
read_up = record fresh { unpackpos = 20; packeddata = replicate 20 0 }

abbrev five : List Bool
five = true ∷ false ∷ true ∷ true ∷ true ∷ []

bools_left_over_example :
    (b' b'' : Buffer) × (Xdr.pack be_library (Item.bools five) read_up ≡ ok b')
    × (Xdr.unpack be_library (Shape.bools 5) b' ≡ ok (Item.bools five, b''))
    × (b''.unpackpos + 4 ≤ length b''.packeddata)
bools_left_over_example =
    bools_left_over be_library five read_up (omega arith) (replicate 20 0, refl, refl) (omega arith)

some_bytes :
    (n : ℕ) (st got st' : List ℕ) → 0 < n → slow_recv n st ≡ some (got, st') → 0 < length got
unfolding slow_recv
some_bytes n [] got st' h e = absurd (cc)
some_bytes n (x ∷ st) got st' h e =
    let same : take (min n 3) (x ∷ st) ≡ got = cc in
    omega (arith, ap length same, length-take (min n 3) (x ∷ st))

recv_loop-ne-stuck_example : recv_loop slow 4 4 (1 ∷ 2 ∷ []) ≢ stuck
recv_loop-ne-stuck_example = recv_loop-ne-stuck slow some_bytes 4 4 (1 ∷ 2 ∷ []) (omega arith)
