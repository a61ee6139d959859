-- ===== src/Buffer/Text/Laws.antt =====
-- Strings and vectors come back as they were packed, in any buffer that is a queue of items.
use pop_cpp.Base.{
  ℕ, ◌+◌, ◌^◌, ◌<◌, ◌≡◌, refl, ◌∙◌, true, List, [], ◌∷◌, ◌++◌, append_assoc, append-nil, length,
  length-append, All, Result, ok, ◌>>=◌, arith,
}
use pop_cpp.Base.Bytes.{IsByte, IsWord, is_positive, wrap32}
use pop_cpp.Buffer.Types.{Buffer, Item, Shape, Scalar, shape}
use pop_cpp.Buffer.Store.{IsSmall}
use pop_cpp.Buffer.Queue.{BufferClass, BufferLaws, Grows, Grows-refl, Grows-trans}
use pop_cpp.Buffer.Raw.Chars.{wrap32-small, is_positive-true}
use pop_cpp.Buffer.Text.{
  c_string, pack_int, unpack_int, pack_string, unpack_string, pack_strings, unpack_strings,
}

-- Text that a C string can hold, with a length that an `int` can.
pub record IsText (s : List ℕ) : Type 0 where
  pub no_zero : All (λ c. (0 < c) × (c < 256)) s
  pub short : length s + 1 < 2 ^ 31

pub c_string_lem :
    (s rest : List ℕ) → All (λ c. (0 < c) × (c < 256)) s → c_string (s ++ 0 ∷ rest) ≡ ok s
unfolding c_string
c_string_lem [] rest h = refl
c_string_lem (c ∷ s) rest h = ground (arith, c_string_lem s rest h.1)

-- The items that stand for a string.
abbrev pub string_items : List ℕ → List Item
string_items s = Item.scalars Scalar.int ((length s + 1) ∷ []) ∷ Item.chars (s ++ 0 ∷ []) ∷ []

bytes_of_text : (s : List ℕ) → All (λ c. (0 < c) × (c < 256)) s → All IsByte (s ++ 0 ∷ [])
bytes_of_text [] h = (omega arith, tt)
bytes_of_text (c ∷ s) h = (h.0.1, bytes_of_text s h.1)

module _ (c : BufferClass) (laws : BufferLaws c) where
  -- What a writer has done once it has put these items behind those that were there.
  abbrev pub Adds : List Item → List Item → Buffer → Result Buffer → Type 0
  Adds xs items b r = (b' : Buffer) × (r ≡ ok b') × laws.Holds b' (xs ++ items) × Grows b b'

  -- What a reader has done once it has taken a value and left these items.
  abbrev pub Takes {ℓ} : {A : Type ℓ} → A → List Item → Buffer → Result (A × Buffer) → Type ℓ
  Takes {A = A} a rest b r =
      (b' : Buffer) × (r ≡ ok (a, b'))
      × laws.Holds b' rest
      × (b'.packeddata ≡ b.packeddata)
      × (b'.header ≡ b.header)

  pub pack_int-Adds :
      (xs : List Item) (x : ℕ) (b : Buffer)
      → IsWord 4 x
      → laws.Holds b xs
      → Adds xs (Item.scalars Scalar.int (x ∷ []) ∷ []) b (pack_int c x b)
  unfolding pack_int
  pack_int-Adds xs x b w h =
      laws.pack-Holds _ b xs (laws.Fits-scalars Scalar.int (x ∷ []) tt (w, tt) (omega arith)) h

  pub unpack_int-Takes :
      (x : ℕ) (rest : List Item) (b : Buffer)
      → IsSmall b
      → laws.Holds b (Item.scalars Scalar.int (x ∷ []) ∷ rest)
      → Takes x rest b (unpack_int c b)
  unfolding unpack_int
  unpack_int-Takes x rest b small h =
      let (b', e, h', same, k) = laws.unpack-Holds _ b rest small h in (b', rw e, h', same, k)

  module _ (s : List ℕ) (t : IsText s) where
    text_Fits : laws.Fits (Item.chars (s ++ 0 ∷ []))
    text_Fits =
        laws.Fits-chars _ (bytes_of_text s t.no_zero)
          (omega (arith, length-append s (0 ∷ []), t.short))

    -- The length, and the bytes with the final zero.
    pub pack_counted-Adds :
        (xs : List Item) (b : Buffer)
        → laws.Holds b xs
        → Adds xs
            (string_items s)
            b
            (pack_int c (wrap32 (length s + 1)) b >>= λ b'. c.pack (Item.chars (s ++ 0 ∷ [])) b')
    pack_counted-Adds xs b h =
        let (b', e, h', g) = pack_int-Adds xs (length s + 1) b (omega arith) h in
        let (b'', e', h'', g') = laws.pack-Holds (Item.chars (s ++ 0 ∷ [])) b' _ text_Fits h' in
        (
          b'',
          rw (wrap32-small (length s + 1) t.short, e) e',
          rw append_assoc at h'',
          Grows-trans g g',
        )

    pub unpack_counted :
        (rest : List Item) (b : Buffer)
        → IsSmall b
        → laws.Holds b (string_items s ++ rest)
        → (b' : Buffer) × (b'' : Buffer) × (unpack_int c b ≡ ok (length s + 1, b'))
          × (c.unpack (Shape.chars (length s + 1)) b' ≡ ok (Item.chars (s ++ 0 ∷ []), b''))
          × laws.Holds b'' rest
          × (b''.packeddata ≡ b.packeddata)
          × (b''.header ≡ b.header)
    unpack_counted rest b small h =
        let (b', e, h', same, k) = unpack_int-Takes (length s + 1) _ b small h in
        let (b'', e', h'', same', k') =
          laws.unpack-Holds (Item.chars (s ++ 0 ∷ [])) b' rest (rw same small) h' in
        (b', b'', e, counted e', h'', same' ∙ same, k' ∙ k)
      where
        counted :
            {b' : Buffer} {r : Result (Item × Buffer)}
            → c.unpack (shape (Item.chars (s ++ 0 ∷ []))) b' ≡ r
            → c.unpack (Shape.chars (length s + 1)) b' ≡ r
        counted e = rw (← length-append s (0 ∷ [])) e

    pub text_positive : is_positive (length s + 1) ≡ true
    text_positive = is_positive-true (length s + 1) (omega arith) t.short

    pub c_string_text : c_string (s ++ 0 ∷ []) ≡ ok s
    c_string_text = c_string_lem s [] t.no_zero

  pub pack_string-Adds :
      (xs : List Item) (s : List ℕ) (b : Buffer)
      → IsText s
      → laws.Holds b xs
      → Adds xs (string_items s) b (pack_string c s b)
  unfolding pack_string
  pack_string-Adds xs s b t h =
      rw (wrap32-small (length s + 1) t.short, text_positive s t)
        (rw (wrap32-small (length s + 1) t.short) at (pack_counted-Adds s t xs b h))

  pub unpack_string-Takes :
      (s : List ℕ) (rest : List Item) (b : Buffer)
      → IsText s
      → IsSmall b
      → laws.Holds b (string_items s ++ rest)
      → Takes s rest b (unpack_string c b)
  unfolding unpack_string
  unpack_string-Takes s rest b t small h =
      let (b', b'', e, e', held, same, k) = unpack_counted s t rest b small h in
      (b'', rw (e, text_positive s t, e', c_string_text s t), held, same, k)

  -- A list of strings is packed as their items one after the other.
  unfoldable pub strings_items : List (List ℕ) → List Item
  strings_items [] = []
  strings_items (s ∷ ss) = string_items s ++ strings_items ss

  pub pack_strings-Adds :
      (xs : List Item) (ss : List (List ℕ)) (b : Buffer)
      → All IsText ss
      → laws.Holds b xs
      → Adds xs (strings_items ss) b (pack_strings c ss b)
  unfolding pack_strings strings_items
  pack_strings-Adds xs [] b t h = (b, refl, rw (append-nil xs) h, Grows-refl b)
  pack_strings-Adds xs (s ∷ ss) b t h =
      let (b', e, h', g) = pack_string-Adds xs s b t.0 h in
      let (b'', e', h'', g') = pack_strings-Adds (xs ++ string_items s) ss b' t.1 h' in
      (b'', rw e e', rw append_assoc at h'', Grows-trans g g')

  pub unpack_strings-Takes :
      (ss : List (List ℕ)) (rest : List Item) (b : Buffer)
      → All IsText ss
      → IsSmall b
      → laws.Holds b (strings_items ss ++ rest)
      → Takes ss rest b (unpack_strings c (length ss) b)
  unfolding unpack_strings strings_items
  unpack_strings-Takes [] rest b t small h = (b, refl, h, refl, refl)
  unpack_strings-Takes (s ∷ ss) rest b t small h =
      let (b', e, h', same, k) = unpack_string-Takes s _ b t.0 small h in
      let (b'', e', h'', same', k') = unpack_strings-Takes ss rest b' t.1 (rw same small) h' in
      (b'', rw (e, e'), h'', same' ∙ same, k' ∙ k)

  -- Strings without a zero inside, packed one after the other into a reset buffer (less than
  -- 2 ^ 31 bytes in all), are unpacked as the same strings.
  pub unpack_strings-pack_strings :
      (ss : List (List ℕ)) (b : Buffer)
      → All IsText ss
      → ((packed : Buffer) → pack_strings c ss (c.reset b) ≡ ok packed → IsSmall packed)
      → (packed b' : Buffer) × (pack_strings c ss (c.reset b) ≡ ok packed)
        × (unpack_strings c (length ss) packed ≡ ok (ss, b'))
  unpack_strings-pack_strings ss b t small =
      let (packed, e, h, g) = pack_strings-Adds [] ss (c.reset b) t (laws.reset-Holds b) in
      let (b', e', _, _, _) =
        unpack_strings-Takes ss [] packed t (small packed e) (rw append-nil h) in
      (packed, b', e, e')
