-- ===== src/Buffer/Raw/Laws.antt =====
-- The raw buffer is a queue of typed items.
use pop_cpp.Base.{
  ℕ, ◌*◌, ◌^◌, ◌<◌, ◌≡◌, refl, sym, ap, List, [], ◌++◌, map, length, append-nil, length-map, All,
  ok, arith,
}
use pop_cpp.Base.Bytes.{IsWord, le_array, length-le_array, read_le_array-le_array}
use pop_cpp.Buffer.Types.{Buffer, Item, Scalar, shape, width}
use pop_cpp.Buffer.Store.{resize, Pending, IsSmall, append, advance, length-resize}
use pop_cpp.Buffer.Queue.{BufferLaws, Carries, Carries-moved, pack_into, unpack_from}
use pop_cpp.Buffer.Raw.{reset, pack, unpack, raw_class, bool_byte}
use pop_cpp.Buffer.Raw.Chars.{
  padded, pack_memory, unpack_memory, pack_chars_lem, unpack_chars_lem, byte_bool-bool_byte,
}

bytes_small : (s : Scalar) (n : ℕ) → n < 2 ^ 28 → n * width s < 2 ^ 31
bytes_small Scalar.int n h = omega arith
bytes_small _ n h = omega arith

-- The items that fit: every number within its type, and less than 2 ^ 31 bytes.
abbrev pub IsRaw : Item → Type 0
IsRaw (Item.scalars s xs) = All (IsWord (width s)) xs × (length xs < 2 ^ 28)
IsRaw (Item.bools bs) = length bs < 2 ^ 31
IsRaw (Item.chars cs) = length cs < 2 ^ 31

-- An item in memory.
abbrev memory : Item → List ℕ
memory (Item.scalars s xs) = le_array (width s) xs
memory (Item.bools bs) = map bool_byte bs
memory (Item.chars cs) = cs

-- The bytes of an item in the buffer.
abbrev Image : Item → List ℕ → Type 0
Image x p = IsRaw x × (p ≡ padded (memory x))

pack_lem : (x : Item) (b : Buffer) → IsRaw x → pack x b ≡ ok (append b (padded (memory x)))
unfolding pack
pack_lem (Item.scalars s xs) b h =
    ap ok (pack_memory _ _ b (length-le_array (width s) xs) (bytes_small s (length xs) h.1))
pack_lem (Item.bools bs) b h = ap ok (pack_memory _ _ b (length-map bs bool_byte) h)
pack_lem (Item.chars cs) b h = ap ok (pack_chars_lem cs b h)

unpack_lem :
    (x : Item) (b : Buffer) (q : List ℕ)
    → IsRaw x
    → Pending b (padded (memory x) ++ q)
    → IsSmall b
    → unpack (shape x) b ≡ ok (x, advance b (length (padded (memory x))))
unfolding unpack
unpack_lem (Item.scalars s xs) b q h p small =
    let bound = bytes_small s (length xs) h.1 in
    rw (
      unpack_memory _ _ b (length-le_array (width s) xs) bound q p small,
      read_le_array-le_array (width s) xs h.0,
    )
unpack_lem (Item.bools bs) b q h p small =
    rw (unpack_memory _ _ b (length-map bs bool_byte) h q p small, byte_bool-bool_byte bs)
unpack_lem (Item.chars cs) b q h p small = rw (unpack_chars_lem cs b q h p small)

unpack-Image :
    (x : Item) (b : Buffer)
    → IsSmall b
    → (p q : List ℕ) → Image x p
    → Pending b (p ++ q)
    → unpack (shape x) b ≡ ok (x, advance b (length p))
unpack-Image x b small p q i h = rw i.1 (unpack_lem x b q i.0 (rw i.1 at h) small)

-- The raw buffer is a queue of typed items: what was packed comes out in the same order, of the
-- same type and with the same value, for all the types that it is overloaded for.
pub raw_laws : BufferLaws raw_class
unfolding raw_class reset
raw_laws = record {
  Fits = IsRaw;
  Fits-scalars = λ s xs _ h k. (h, k);
  Fits-chars = λ cs _ k. k;
  Fits-bool = λ b. omega arith;
  Holds = Carries Image;
  reset-Holds =
      λ b. ([], refl, (resize 20 b.packeddata, sym (append-nil _), length-resize 20 b.packeddata));
  reset_position = λ b. refl;
  reset_header = λ b. refl;
  reset_size = λ b. length-resize 20 b.packeddata;
  Holds-moved = Carries-moved Image;
  pack-Holds = λ x b xs h c. pack_into Image raw_class x b xs _ (pack_lem x b h) (h, refl) c;
  unpack-Holds = λ x b xs small c. unpack_from Image raw_class x b xs (unpack-Image x b small) c;
}

pub raw_laws_Fits : (x : Item) → IsRaw x → raw_laws.Fits x
unfolding raw_laws
raw_laws_Fits x h = h
