-- ===== src/Buffer/Xdr/Laws.antt =====
-- The XDR buffer is a queue of typed items too, but for arrays of more than four `bool`s.
use pop_cpp.Base.{
  ℕ, ◌+◌, ◌-◌, ◌*◌, ◌^◌, ◌≤◌, ◌<◌, ◌≡◌, refl, sym, ap, ◌∙◌, List, [], ◌∷◌, ◌++◌, map, append-nil,
  length, take, drop, replicate, length-replicate, length-append, length-map, All, le_refl, some,
  ok, arith,
}
use pop_cpp.Base.Bytes.{IsWord, wrap32, to_size}
use pop_cpp.Buffer.Types.{Buffer, Item, Scalar, shape, width}
use pop_cpp.Buffer.Store.{
  resize, write-resize, length-resize, check_unpack_passes, window_take, Pending, IsSmall, append,
  advance, length-packed,
}
use pop_cpp.Buffer.Queue.{BufferLaws, IsNarrow, Carries, Carries-moved, pack_into, unpack_from}
use pop_cpp.Buffer.Raw.{bool_byte}
use pop_cpp.Buffer.Raw.Chars.{
  padded, pack_memory, pack_chars_lem, unpack_chars_lem, wrap32-small, is_positive-true,
}
use pop_cpp.Buffer.Xdr.{reset, pack_vector, unpack_vector, pack, unpack, xdr_class}
use pop_cpp.Buffer.Xdr.Library.{XdrLibrary, XdrLaws, space}
use pop_cpp.Buffer.Xdr.Bools.{unpack_bools_lem, unpack_no_bools, padded_four}

space_small : (s : Scalar) (n : ℕ) → n < 2 ^ 28 → n * space s < 2 ^ 31
space_small Scalar.int n h = omega arith
space_small _ n h = omega arith

to_size-small : (n : ℕ) → n < 2 ^ 31 → to_size n ≡ n
to_size-small n h = ground arith

module _ (lib : XdrLibrary) where
  -- The bytes of an array of numbers: what the library writes, and zeros up to the room made.
  abbrev pub filled : Scalar → List ℕ → List ℕ → List ℕ
  filled s [] bytes = []
  filled s (x ∷ xs) bytes = bytes ++ replicate (length (x ∷ xs) * space s - length bytes) 0

  abbrev pub Image : Item → List ℕ → Type 0
  Image (Item.scalars s xs) p =
      (bytes : List ℕ) × (p ≡ filled s xs bytes)
      × (lib.encode s xs (length xs * space s) ≡ some bytes)
      × All (IsWord (width s)) xs
      × (length xs < 2 ^ 28)
  Image (Item.bools bs) p = (length bs ≤ 4) × (p ≡ padded (map bool_byte bs))
  Image (Item.chars cs) p = (length cs < 2 ^ 31) × (p ≡ padded cs)

  -- The items that the XDR buffer carries.
  unfoldable pub IsXdr : Item → Type 0
  IsXdr x = (p : List ℕ) × Image x p

  module _ (laws : XdrLaws lib) where
    pack_vector_lem :
        (s : Scalar) (xs : List ℕ) (b : Buffer) (bytes : List ℕ)
        → lib.encode s xs (length xs * space s) ≡ some bytes
        → length xs < 2 ^ 28
        → pack_vector lib s xs b ≡ ok (append b (filled s xs bytes))
    unfolding pack_vector
    pack_vector_lem s [] b bytes e h =
        ap ok (ap (λ (v : List ℕ). record b { packeddata = v }) (sym (append-nil b.packeddata)))
    pack_vector_lem s (x ∷ xs) b bytes e h =
        rw
          (
            is_positive-true n (omega arith) (omega arith),
            wrap32-small (n * space s) bound,
            e,
            wrap32-small (n * space s) bound,
            to_size-small (n * space s) bound,
          )
          (ap (λ (v : List ℕ). ok (record b { packeddata = v }))
            (write-resize b.packeddata bytes (n * space s)
              (laws.encode_inside s (x ∷ xs) _ bytes e)))
      where
        n : ℕ
        n = length (x ∷ xs)

        bound : n * space s < 2 ^ 31
        bound = space_small s n h

    unpack_vector_lem :
        (s : Scalar) (xs : List ℕ) (b : Buffer) (bytes q : List ℕ)
        → lib.encode s xs (length xs * space s) ≡ some bytes
        → All (IsWord (width s)) xs
        → length xs < 2 ^ 28
        → Pending b (filled s xs bytes ++ q)
        → IsSmall b
        → unpack_vector lib s (length xs) b ≡ ok (xs, advance b (length (filled s xs bytes)))
    unfolding unpack_vector
    unpack_vector_lem s [] b bytes q e ws h p small =
        ap (λ (u : ℕ). ok ([], record b { unpackpos = u })) (omega arith)
    unpack_vector_lem s (x ∷ xs) b bytes q e ws h p small =
        rw
          (
            is_positive-true n (omega arith) (omega arith),
            wrap32-small (n * space s) bound,
            check_unpack_passes b image q p (n * space s) (omega (arith, counted)) small,
            content,
            laws.decode-encode s (x ∷ xs) _ bytes (replicate (n * space s - length bytes) 0) ws e,
            wrap32-small (n * space s) bound,
          )
          (ap (λ (u : ℕ). ok (x ∷ xs, record b { unpackpos = u })) position)
      where
        n : ℕ
        n = length (x ∷ xs)

        bound : n * space s < 2 ^ 31
        bound = space_small s n h

        image : List ℕ
        image = filled s (x ∷ xs) bytes

        counted : length image ≡ n * space s
        counted = omega (
          arith,
          length-append bytes (replicate (n * space s - length bytes) 0),
          length-replicate {A = ℕ} (n * space s - length bytes) 0,
          laws.encode_inside s (x ∷ xs) _ bytes e,
        )

        content : take (n * space s) (drop b.unpackpos b.packeddata) ≡ image
        content =
            ap (λ (k : ℕ). take k (drop b.unpackpos b.packeddata)) (sym counted)
            ∙ window_take b image q p

        position : wrap32 (b.unpackpos + n * space s) ≡ b.unpackpos + length image
        position = omega (arith, counted, length-packed b image q p)

    pack-Image : (x : Item) (b : Buffer) (p : List ℕ) → Image x p → pack lib x b ≡ ok (append b p)
    unfolding pack
    pack-Image (Item.scalars s xs) b p (bytes, i, e, ws, h) =
        rw i (pack_vector_lem s xs b bytes e h)
    pack-Image (Item.bools bs) b p (h, i) =
        rw i (ap ok (pack_memory _ _ b (length-map bs bool_byte) (omega arith)))
    pack-Image (Item.chars cs) b p (h, i) = rw i (ap ok (pack_chars_lem cs b h))

    unpack-Image :
        (x : Item) (b : Buffer)
        → IsSmall b
        → (p q : List ℕ) → Image x p
        → Pending b (p ++ q)
        → unpack lib (shape x) b ≡ ok (x, advance b (length p))
    unfolding unpack
    unpack-Image (Item.scalars s xs) b small p q (bytes, i, e, ws, h) k =
        rw (i, unpack_vector_lem s xs b bytes q e ws h (rw i at k) small)
    unpack-Image (Item.bools []) b small p q (h, i) k = rw (i, unpack_no_bools b)
    unpack-Image (Item.bools (x ∷ bs)) b small p q (h, i) k =
        rw (i, unpack_bools_lem (x ∷ bs) b q (omega arith) (omega arith) (rw i at k) small)
          (ap (λ (u : ℕ). ok (Item.bools (x ∷ bs), advance b u))
            (padded_four (map bool_byte (x ∷ bs)) (omega arith)
              (omega (arith, length-map (x ∷ bs) bool_byte))))
    unpack-Image (Item.chars cs) b small p q (h, i) k =
        rw (i, unpack_chars_lem cs b q h (rw i at k) small)

    Fits-scalars_lem :
        (s : Scalar) (xs : List ℕ)
        → IsNarrow s
        → All (IsWord (width s)) xs
        → length xs < 2 ^ 28
        → IsXdr (Item.scalars s xs)
    unfolding IsXdr
    Fits-scalars_lem s xs narrow ws h =
        let (bytes, e) = laws.encode_narrow s xs _ narrow ws (le_refl _) in
        (filled s xs bytes, (bytes, refl, e, ws, h))

    -- Through the XDR buffer too what was packed comes out in the same order, of the same type and
    -- with the same value: every array of numbers that the XDR library can encode, and every array
    -- of narrow numbers, of characters, and of at most four `bool`s.
    pub xdr_laws : BufferLaws (xdr_class lib)
    unfolding xdr_class reset IsXdr
    xdr_laws = record {
      Fits = IsXdr;
      Fits-scalars = Fits-scalars_lem;
      Fits-chars = λ cs _ k. (padded cs, (k, refl));
      Fits-bool = λ b. (padded (bool_byte b ∷ []), (omega arith, refl));
      Holds = Carries Image;
      reset-Holds = λ b. ([], refl, (resize 20 [], sym (append-nil _), length-resize 20 []));
      reset_position = λ b. refl;
      reset_header = λ b. refl;
      reset_size = λ b. length-resize 20 [];
      Holds-moved = Carries-moved Image;
      pack-Holds =
          λ x b xs h c. pack_into Image (xdr_class lib) x b xs h.0 (pack-Image x b h.0 h.1) h.1 c;
      unpack-Holds =
          λ x b xs small c. unpack_from Image (xdr_class lib) x b xs (unpack-Image x b small) c;
    }

    pub xdr_laws_Fits : (x : Item) → IsXdr x → xdr_laws.Fits x
    unfolding xdr_laws
    xdr_laws_Fits x h = h
