-- ===== src/Buffer/Queue.antt =====
-- What both buffer classes promise their clients: a buffer is a queue of typed items. `pack` adds
-- an item at the end and `unpack`, asked for the shape of the first item, takes it from the front.
use pop_cpp.Base.{
  ℕ, ◌^◌, ◌<◌, ◌≡◌, refl, sym, ap, ◌∙◌, Bool, List, [], ◌∷◌, ◌++◌, append-nil, append_assoc, length,
  All, take, drop, le_refl, ◌≤◌, length-append, length-take, drop-append_length, take-append-drop,
  Result, ok, arith,
}
use pop_cpp.Base.Bytes.{IsByte, IsWord}
use pop_cpp.Buffer.Types.{Buffer, Item, Shape, Scalar, shape, width}
use pop_cpp.Buffer.Store.{Pending, IsSmall, append, advance, Pending-append, Pending-advance}

-- Every value of these types is in reach of both encodings; a `long` may be too wide for XDR.
abbrev pub IsNarrow : Scalar → Type 0
IsNarrow Scalar.long = ⊥
IsNarrow Scalar.ulong = ⊥
IsNarrow _ = Unit {0}

-- The virtual functions of `pop_buffer` that a client calls.
pub record BufferClass : Type 0 where
  pub reset : Buffer → Buffer
  pub pack : Item → Buffer → Result Buffer
  pub unpack : Shape → Buffer → Result (Item × Buffer)

-- What packing leaves alone.
pub record Grows (b b' : Buffer) : Type 0 where
  pub same_header : b'.header ≡ b.header
  pub same_position : b'.unpackpos ≡ b.unpackpos
  pub longer : length b.packeddata ≤ length b'.packeddata

pub Grows-refl : (b : Buffer) → Grows b b
Grows-refl b = record { same_header = refl; same_position = refl; longer = le_refl _ }

pub Grows-trans : {b b' b'' : Buffer} → Grows b b' → Grows b' b'' → Grows b b''
Grows-trans g h = record {
  same_header = h.same_header ∙ g.same_header;
  same_position = h.same_position ∙ g.same_position;
  longer = omega arith;
}

pub record BufferLaws (c : BufferClass) : Type 1 where
  -- The items that the class can carry.
  pub Fits : Item → Type 0
  pub Fits-scalars :
      (s : Scalar) (xs : List ℕ)
      → IsNarrow s
      → All (IsWord (width s)) xs
      → length xs < 2 ^ 28
      → Fits (Item.scalars s xs)
  pub Fits-chars : (cs : List ℕ) → All IsByte cs → length cs < 2 ^ 31 → Fits (Item.chars cs)
  pub Fits-bool : (b : Bool) → Fits (Item.bools (b ∷ []))
  -- The buffer holds these items, in this order, and nothing else is left to read.
  pub Holds : Buffer → List Item → Type 0
  pub reset-Holds : (b : Buffer) → Holds (c.reset b) []
  pub reset_position : (b : Buffer) → (c.reset b).unpackpos ≡ 20
  pub reset_header : (b : Buffer) → (c.reset b).header ≡ b.header
  pub reset_size : (b : Buffer) → length (c.reset b).packeddata ≡ 20
  -- It depends on the bytes behind the message header alone.
  pub Holds-moved :
      (b b' : Buffer) (xs : List Item)
      → Holds b xs
      → b.unpackpos ≡ 20
      → b'.unpackpos ≡ 20
      → 20 ≤ length b'.packeddata
      → drop 20 b'.packeddata ≡ drop 20 b.packeddata
      → Holds b' xs
  pub pack-Holds :
      (x : Item) (b : Buffer) (xs : List Item)
      → Fits x
      → Holds b xs
      → (b' : Buffer) × (c.pack x b ≡ ok b') × Holds b' (xs ++ x ∷ []) × Grows b b'
  pub unpack-Holds :
      (x : Item) (b : Buffer) (xs : List Item)
      → IsSmall b
      → Holds b (x ∷ xs)
      → (b' : Buffer) × (c.unpack (shape x) b ≡ ok (x, b'))
        × Holds b' xs
        × (b'.packeddata ≡ b.packeddata)
        × (b'.header ≡ b.header)

append-Grows : (b : Buffer) (p : List ℕ) → Grows b (append b p)
append-Grows b p = record {
  same_header = refl;
  same_position = refl;
  longer = omega (arith, length-append b.packeddata p);
}

length-take_le : (n : ℕ) (v : List ℕ) → n ≤ length v → length (take n v) ≡ n
length-take_le n v h = omega (arith, length-take n v)

-- A class fills these laws by saying which bytes stand for an item.
module _ (Image : Item → List ℕ → Type 0) where
  abbrev pub Images : List Item → List ℕ → Type 0
  Images [] bs = bs ≡ []
  Images (x ∷ xs) bs = (p : List ℕ) × (q : List ℕ) × (bs ≡ p ++ q) × Image x p × Images xs q

  abbrev pub Carries : Buffer → List Item → Type 0
  Carries b xs = (bs : List ℕ) × Images xs bs × Pending b bs

  Images-snoc :
      (xs : List Item) (bs : List ℕ) (x : Item) (p : List ℕ)
      → Images xs bs
      → Image x p
      → Images (xs ++ x ∷ []) (bs ++ p)
  Images-snoc [] bs x p h k = (p, [], rw h (sym (append-nil p)), k, refl)
  Images-snoc (y ∷ xs) bs x p (u, v, e, i, r) k =
      (u, v ++ p, rw e (append_assoc u v p), i, Images-snoc xs v x p r k)

  pub Carries-append :
      (xs : List Item) (b : Buffer) (x : Item) (p : List ℕ)
      → Carries b xs
      → Image x p
      → Carries (append b p) (xs ++ x ∷ [])
  Carries-append xs b x p (bs, r, h) k =
      (bs ++ p, Images-snoc xs bs x p r k, Pending-append b bs p h)

  pub Carries-moved :
      (b b' : Buffer) (xs : List Item)
      → Carries b xs
      → b.unpackpos ≡ 20
      → b'.unpackpos ≡ 20
      → 20 ≤ length b'.packeddata
      → drop 20 b'.packeddata ≡ drop 20 b.packeddata
      → Carries b' xs
  Carries-moved b b' xs (bs, r, (front, e, len)) at at' big same =
      (bs, r, (take 20 b'.packeddata, rest, length-take_le 20 _ big ∙ sym at'))
    where
      tail : drop 20 b.packeddata ≡ bs
      tail = rw (e, ← at, ← len) (drop-append_length front bs)

      rest : b'.packeddata ≡ take 20 b'.packeddata ++ bs
      rest =
          sym (take-append-drop 20 b'.packeddata) ∙ ap (◌++◌ (take 20 b'.packeddata)) (same ∙ tail)

  -- The bytes of the first item stand at the reading position, and behind them the others.
  pub Carries-cons :
      (x : Item) (xs : List Item) (b : Buffer)
      → Carries b (x ∷ xs)
      → (p : List ℕ) × (q : List ℕ) × Image x p
        × Pending b (p ++ q)
        × Carries (advance b (length p)) xs
  Carries-cons x xs b (bs, (p, q, e, i, r), h) =
      let h' : Pending b (p ++ q) = (h.0, h.1 ∙ ap (◌++◌ h.0) e, h.2) in
      (p, q, i, h', (q, r, Pending-advance b p q h'))

  module _ (c : BufferClass) (x : Item) (b : Buffer) (xs : List Item) where
    pub pack_into :
        (p : List ℕ)
        → c.pack x b ≡ ok (append b p)
        → Image x p
        → Carries b xs
        → (b' : Buffer) × (c.pack x b ≡ ok b') × Carries b' (xs ++ x ∷ []) × Grows b b'
    pack_into p e i h = (append b p, e, Carries-append xs b x p h i, append-Grows b p)

    pub unpack_from :
        ((p q : List ℕ)
          → Image x p
          → Pending b (p ++ q)
          → c.unpack (shape x) b ≡ ok (x, advance b (length p)))
        → Carries b (x ∷ xs)
        → (b' : Buffer) × (c.unpack (shape x) b ≡ ok (x, b'))
          × Carries b' xs
          × (b'.packeddata ≡ b.packeddata)
          × (b'.header ≡ b.header)
    unpack_from read h =
        let (p, q, i, pending, rest) = Carries-cons x xs b h in
        (advance b (length p), read p q i pending, rest, refl, refl)
