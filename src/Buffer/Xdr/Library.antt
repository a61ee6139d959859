-- ===== src/Buffer/Xdr/Library.antt =====
-- The XDR library (rpc/xdr.h), which the repository does not hold: `xdr_vector` over a memory
-- stream, for the element types that the buffer uses.
use pop_cpp.Base.{ℕ, ◌*◌, ◌≤◌, ◌≡◌, List, ◌++◌, length, All, Option, some}
use pop_cpp.Base.Bytes.{IsWord}
use pop_cpp.Buffer.Types.{Scalar, width}
use pop_cpp.Buffer.Queue.{IsNarrow}

-- The bytes that the buffer sets aside for one value.
abbrev pub space : Scalar → ℕ
space Scalar.int = 4
space Scalar.uint = 4
space Scalar.long = 8
space Scalar.ulong = 8
space Scalar.short = 4
space Scalar.ushort = 4
space Scalar.float = 4
space Scalar.double = 8

-- `encode s xs room` is what is written to `room` bytes, or none where the call fails;
-- `decode s n memory` reads `n` values.
pub record XdrLibrary : Type 0 where
  pub encode : Scalar → List ℕ → ℕ → Option (List ℕ)
  pub decode : Scalar → ℕ → List ℕ → Option (List ℕ)

-- What the library documents: it stays inside its memory, it encodes every value of a narrow type
-- where there is room, and it reads back what it wrote.
pub record XdrLaws (lib : XdrLibrary) : Type 0 where
  pub encode_inside :
      (s : Scalar) (xs : List ℕ) (room : ℕ) (bytes : List ℕ)
      → lib.encode s xs room ≡ some bytes
      → length bytes ≤ room
  pub encode_narrow :
      (s : Scalar) (xs : List ℕ) (room : ℕ)
      → IsNarrow s
      → All (IsWord (width s)) xs
      → length xs * space s ≤ room
      → (bytes : List ℕ) × (lib.encode s xs room ≡ some bytes)
  pub decode-encode :
      (s : Scalar) (xs : List ℕ) (room : ℕ) (bytes fill : List ℕ)
      → All (IsWord (width s)) xs
      → lib.encode s xs room ≡ some bytes
      → lib.decode s (length xs) (bytes ++ fill) ≡ some xs
