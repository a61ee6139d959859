-- ===== src/Buffer/Stream.antt =====
-- A sequence of arguments in one message: what the generated code of a method call does, one `Pack`
-- for each argument on the caller's side and one `UnPack` for each on the object's.
use pop_cpp.Base.{
  ◌≡◌, refl, ◌∙◌, List, [], ◌∷◌, ◌++◌, map, append-nil, append_assoc, All, Result, ok, ◌>>=◌,
}
use pop_cpp.Buffer.Types.{Buffer, Item, Shape, shape}
use pop_cpp.Buffer.Store.{IsSmall}
use pop_cpp.Buffer.Queue.{BufferClass, BufferLaws, Grows, Grows-refl, Grows-trans}

module _ (c : BufferClass) where
  unfoldable pub pack_all : List Item → Buffer → Result Buffer
  pack_all [] b = ok b
  pack_all (x ∷ xs) b = c.pack x b >>= λ b'. pack_all xs b'

  unfoldable pub unpack_all : List Shape → Buffer → Result (List Item × Buffer)
  unpack_all [] b = ok ([], b)
  unpack_all (s ∷ ss) b =
      c.unpack s b >>= λ r. unpack_all ss r.1 >>= λ rest. ok (r.0 ∷ rest.0, rest.1)

module _ (c : BufferClass) (laws : BufferLaws c) where
  -- Items that fit are packed without an error, behind what is there.
  pub pack_all-Holds :
      (xs ys : List Item) (b : Buffer)
      → All laws.Fits xs
      → laws.Holds b ys
      → (b' : Buffer) × (pack_all c xs b ≡ ok b') × laws.Holds b' (ys ++ xs) × Grows b b'
  unfolding pack_all
  pack_all-Holds [] ys b fit h = (b, refl, rw (append-nil ys) h, Grows-refl b)
  pack_all-Holds (x ∷ xs) ys b fit h =
      let (b', e, h', k) = laws.pack-Holds x b ys fit.0 h in
      let (b'', e', h'', k') = pack_all-Holds xs (ys ++ x ∷ []) b' fit.1 h' in
      (b'', rw e e', rw append_assoc at h'', Grows-trans k k')

  pub unpack_all-Holds :
      (xs : List Item) (b : Buffer) (ys : List Item)
      → IsSmall b
      → laws.Holds b (xs ++ ys)
      → (b' : Buffer) × (unpack_all c (map shape xs) b ≡ ok (xs, b'))
        × laws.Holds b' ys
        × (b'.header ≡ b.header)
  unfolding unpack_all
  unpack_all-Holds [] b ys small h = (b, refl, h, refl)
  unpack_all-Holds (x ∷ xs) b ys small h =
      let (b', e, h', same, k) = laws.unpack-Holds x b (xs ++ ys) small h in
      let (b'', e', h'', k') = unpack_all-Holds xs b' ys (rw same small) h' in
      (b'', rw (e, e'), h'', k' ∙ k)
