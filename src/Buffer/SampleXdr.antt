-- ===== src/Buffer/SampleXdr.antt =====
-- An XDR library with the documented laws: each value in its space, highest byte first.
use pop_cpp.Base.{
  ℕ, zero, suc, ◌*◌, ◌≤◌, ◌≡◌, refl, ap, List, [], ◌∷◌, ◌++◌, append_assoc, length, length-append,
  take, drop, take-append_length, drop-append_length, Option, none, some, arith, All, leb,
  if◌then◌else◌, le→leb,
}
use pop_cpp.Base.Bytes.{IsWord, be_bytes, from_be, length-be_bytes, from_be-be_bytes}
use pop_cpp.Buffer.Types.{Scalar, width}
use pop_cpp.Buffer.Xdr.Library.{XdrLibrary, XdrLaws, space}

unfoldable pub be_array : ℕ → List ℕ → List ℕ
be_array w [] = []
be_array w (x ∷ xs) = be_bytes w x ++ be_array w xs

unfoldable pub read_be_array : ℕ → ℕ → List ℕ → List ℕ
read_be_array w zero bytes = []
read_be_array w (suc n) bytes = from_be (take w bytes) ∷ read_be_array w n (drop w bytes)

length-be_array : (w : ℕ) (xs : List ℕ) → length (be_array w xs) ≡ length xs * w
unfolding be_array
length-be_array w [] = omega arith
length-be_array w (x ∷ xs) =
    omega (
      arith,
      length-append (be_bytes w x) (be_array w xs),
      length-be_bytes w x,
      length-be_array w xs,
    )

front :
    (w : ℕ) (xs ys : List ℕ) → length xs ≡ w → (take w (xs ++ ys) ≡ xs) × (drop w (xs ++ ys) ≡ ys)
front w xs ys h = (rw (← h) (take-append_length xs ys), rw (← h) (drop-append_length xs ys))

read_be_array-be_array :
    (w : ℕ) (xs fill : List ℕ)
    → All (IsWord w) xs
    → read_be_array w (length xs) (be_array w xs ++ fill) ≡ xs
unfolding be_array read_be_array
read_be_array-be_array w [] fill h = refl
read_be_array-be_array w (x ∷ xs) fill h =
    let (head, rest) = front w (be_bytes w x) (be_array w xs ++ fill) (length-be_bytes w x) in
    rw (
      append_assoc (be_bytes w x) (be_array w xs) fill,
      head,
      rest,
      from_be-be_bytes w x h.0,
      read_be_array-be_array w xs fill h.1,
    )

wider : (s : Scalar) (xs : List ℕ) → All (IsWord (width s)) xs → All (IsWord (space s)) xs
wider s [] h = tt
wider Scalar.int (x ∷ xs) h = (h.0, wider Scalar.int xs h.1)
wider Scalar.uint (x ∷ xs) h = (h.0, wider Scalar.uint xs h.1)
wider Scalar.long (x ∷ xs) h = (h.0, wider Scalar.long xs h.1)
wider Scalar.ulong (x ∷ xs) h = (h.0, wider Scalar.ulong xs h.1)
wider Scalar.short (x ∷ xs) h = (omega arith, wider Scalar.short xs h.1)
wider Scalar.ushort (x ∷ xs) h = (omega arith, wider Scalar.ushort xs h.1)
wider Scalar.float (x ∷ xs) h = (h.0, wider Scalar.float xs h.1)
wider Scalar.double (x ∷ xs) h = (h.0, wider Scalar.double xs h.1)

unfoldable pub be_encode : Scalar → List ℕ → ℕ → Option (List ℕ)
be_encode s xs room = if leb (length xs * space s) room then some (be_array (space s) xs) else none

unfoldable pub be_decode : Scalar → ℕ → List ℕ → Option (List ℕ)
be_decode s n bytes = some (read_be_array (space s) n bytes)

abbrev pub be_library : XdrLibrary
be_library = record { encode = be_encode; decode = be_decode }

be_encode-some :
    (s : Scalar) (xs : List ℕ) (room : ℕ) (bytes : List ℕ)
    → be_encode s xs room ≡ some bytes
    → (length xs * space s ≤ room) × (be_array (space s) xs ≡ bytes)
unfolding be_encode
be_encode-some s xs room bytes e = ground arith

pub be_library_laws : XdrLaws be_library
unfolding be_encode be_decode
be_library_laws = record {
  encode_inside = λ s xs room bytes e.
      let (fits, same) = be_encode-some s xs room bytes e in
      omega (arith, length-be_array (space s) xs, ap length same);
  encode_narrow =
      λ s xs room _ _ h. (be_array (space s) xs, rw (le→leb (length xs * space s) room h));
  decode-encode = λ s xs room bytes fill words e.
      let (fits, same) = be_encode-some s xs room bytes e in
      rw (← same) (ap some (read_be_array-be_array (space s) xs fill (wider s xs words)));
}
